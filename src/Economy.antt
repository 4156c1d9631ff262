-- ===== src/Economy.antt =====
-- internal/economy: buying and selling (buy.go, sell.go, pricing.go, transaction_ops.go,
-- helpers.go, validation.go, weekly_sales.go).
--
-- The state is the stored inventory of the user. What the repository, the naming resolver and the
-- progression service answer are the fields of `Calls`. Names and categories are only compared,
-- so they are numbers. Logging and the published events change nothing here.
pub mod Pricing
pub mod Exchange
pub mod Purchase
pub mod Sale
