-- ===== src/Orders.antt =====
-- Orders (src/modules/orders/services.py): the life cycle, the cart, quotas, delivery and pickup.
pub mod Frame
pub mod Stale
pub mod Calls
pub mod Fsm
pub mod Dict
pub mod Cart
pub mod Tara
pub mod Quota
pub mod Settlement
pub mod Fulfillment
pub mod Pickup
pub mod Checkout
pub mod Edit
pub mod Status
pub mod Life
