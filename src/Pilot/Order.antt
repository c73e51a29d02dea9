-- ===== src/Pilot/Order.antt =====
-- Orders as p4p_core/models.py declares them, and their rows in the pilot node's database.
use p4p.Prelude.{ℕ, String, Bool, Option, List}

-- The `Literal` of p4p_core/constants.py.
pub data OrderStatus : Type 0 where
  new accepted rejected ready completed cancelled : OrderStatus

pub record OrderItem : Type 0 where
  pub id : String
  pub quantity : ℕ

pub record OrderLineSnapshot : Type 0 where
  pub id : String
  pub name : String
  pub quantity : ℕ
  pub unit_price : ℕ
  pub line_total : ℕ

pub record OrderPricingSnapshot : Type 0 where
  pub currency : String
  pub lines : List OrderLineSnapshot
  pub total_minor : ℕ

pub record OrderRequest : Type 0 where
  pub client_request_id : String
  pub customer_name : String
  pub customer_contact : String
  pub fulfillment : String
  pub items : List OrderItem
  pub note : String
  pub client_version : String

pub record StoredOrder : Type 0 where
  pub order_id : String
  pub client_request_id : String
  pub status_token : String
  pub customer_name : String
  pub customer_contact : String
  pub fulfillment : String
  pub items : List OrderItem
  pub pricing_snapshot : Option OrderPricingSnapshot
  pub note : String
  pub client_version : String
  pub status : OrderStatus
  pub payment_method : String
  pub status_message : Option String
  pub requested_at : ℕ
  pub updated_at : ℕ
  pub estimated_ready : Option ℕ

pub record OrderStatusUpdate : Type 0 where
  pub status : OrderStatus
  pub status_message : Option String
  pub estimated_ready_minutes : Option ℕ

-- A row of the table `orders`; the JSON columns stand for the values that they hold.
pub record OrderRow : Type 0 where
  pub order : StoredOrder
  pub request_fingerprint : String

-- A row of the table `menu_items`.
pub record MenuRow : Type 0 where
  pub id : String
  pub name : String
  pub description : String
  pub price : ℕ
  pub category : String
  pub active : Bool
  pub image_url : String
  pub sort_order : ℕ
