-- ===== src/Tests/Branches.antt =====
-- Tests by evaluation of the branches on which a request is refused.
use p4p.Prelude.{
  String, ◌≡◌, refl, true, false, strip, lower, lower_ascii, trim, Option, none, some, [], ◌∷◌, map,
}
use p4p.Prelude.Result.{ok, err}
use p4p.Pilot.Order.{
  OrderStatus, new, accepted, rejected, ready, completed, cancelled, MenuRow, OrderRow,
}
use p4p.Pilot.Config.{Config, World}
use p4p.Pilot.Store.{Store, http, value_error, pending, running, no_error}
use p4p.Pilot.Store.Orders.{enforce_order_admission, sql_contact, is_active}
use p4p.Pilot.Store.Outbox.{finish_order_action}
use p4p.Pilot.Operations.{live_blocked}
use p4p.Pilot.Lanes.Reply.{external_payment_url_error}
use p4p.Tests.{diner, town, store, request, order, action, menu}

-- Every item of the menu is switched off.
abbrev switched_off : MenuRow → MenuRow
switched_off m = record m { active = false }

abbrev closed_kitchen : Store
closed_kitchen = record (store [] []) { menu_items = map switched_off menu }

inactive_test : enforce_order_admission diner request closed_kitchen ≡ err (http 400)
unfolding enforce_order_admission sql_contact strip lower lower_ascii trim
inactive_test = refl

abbrev in_status : OrderStatus → OrderRow
in_status status = record { order = record order { status = status }; request_fingerprint = "" }

active_test :
    map is_active (map in_status (new ∷ accepted ∷ rejected ∷ ready ∷ completed ∷ cancelled ∷ []))
    ≡ true ∷ true ∷ false ∷ true ∷ false ∷ false ∷ []
active_test = refl

abbrev strong : Config
strong = record diner {
  persistent_database = true;
  persistent_node_identity = true;
  strong_operator_token = true;
}

blocked_tests :
    (live_blocked strong ≡ false)
    × ((live_blocked (record strong { persistent_database = false }) ≡ true)
        × ((live_blocked (record strong { persistent_node_identity = false }) ≡ true)
            × (live_blocked (record strong { strong_operator_token = false }) ≡ true)))
unfolding live_blocked
blocked_tests = (refl, (refl, (refl, refl)))

-- A URL of this scheme on this host.
abbrev split_as : String → String → World
split_as url_scheme host = record town {
  urlsplit = λ u. some (record { scheme = url_scheme; netloc = host; hostname = host });
}

abbrev url_error : String → String → Option String
unfolding external_payment_url_error
url_error url_scheme host = elim (external_payment_url_error (split_as url_scheme host) "url") [
  | ok e ↦ e
  | err x ↦ none
]

url_tests :
    (url_error "https" "pay.example" ≡ none)
    × ((url_error "http" "localhost" ≡ none)
        × ((url_error "http" "pay.example" ≡ some "PAYMENT_EXTERNAL_HTTP_NOT_LOOPBACK")
            × ((url_error "ftp" "pay.example" ≡ some "PAYMENT_EXTERNAL_URL_INVALID")
                × (url_error "https" "" ≡ some "PAYMENT_EXTERNAL_URL_INVALID"))))
unfolding external_payment_url_error
url_tests = (refl, (refl, (refl, (refl, refl))))

-- An action does not end as one that is pending or running.
finish_tests :
    ((finish_order_action "outbox:o-1:stock:basic" running no_error
        (store [] (action running ∷ []))).0
      ≡ err value_error)
    × ((finish_order_action "outbox:o-1:stock:basic" pending no_error
          (store [] (action running ∷ []))).0
        ≡ err value_error)
unfolding finish_order_action
finish_tests = (refl, refl)
