-- ===== src/Core/Transaction.antt =====
-- crates/opencdc-core/src/transaction.rs: the transaction block of an event.
use opencdc.Base.{Text}
use opencdc.Base.Int.{ℤ, pos}

pub record TransactionInfo : Type 0 where
  pub id : Text
  pub total_order : ℤ
  pub data_collections_order : ℤ

unfoldable pub new : Text → TransactionInfo
new id = record { id = id; total_order = pos 0; data_collections_order = pos 0 }

unfoldable pub with_order : ℤ → ℤ → TransactionInfo → TransactionInfo
with_order total_order data_collections_order t = record t {
  total_order = total_order;
  data_collections_order = data_collections_order;
}
