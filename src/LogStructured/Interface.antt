-- ===== src/LogStructured/Interface.antt =====
-- The interface `Log` of pkg/logstructured/logstructured.go, over the state `S` of a log, without
-- its selectors. A log that returns an error from `List` returns nothing else.
use harikube.Common.{ℕ, Bytes, Bool, Option, List}
use harikube.Api.{Error, Event}

pub record Log (S : Type 0) : Type 0 where
  pub compact_revision : S → ℕ × Option Error
  pub current_revision : S → ℕ × Option Error
  pub list : Bytes → Bytes → ℕ → ℕ → Bool → Bool → S → ℕ × List Event × Option Error
  pub count : Bytes → Bytes → ℕ → S → ℕ × ℕ × Option Error
  pub after : Bytes → Bytes → ℕ → ℕ → S → ℕ × List Event × Option Error
  pub append : Event → S → S × (ℕ × Option Error)
  pub compact : ℕ → S → S × (ℕ × Option Error)
