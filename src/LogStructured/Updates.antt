-- ===== src/LogStructured/Updates.antt =====
-- `Update` of `LogStructured` among other clients.
use harikube.Common.{ℕ, Bytes, Bool, true, false, Option, some, ◌≡◌, ◌⊎◌, if◌then◌else◌}
use harikube.Api.{Error, KeyValue}
use harikube.LogStructured
use harikube.LogStructured.Interface.{Log}
use harikube.LogStructured.Rows.{Row, LogLaws}
use harikube.LogStructured.Atomic.{Written}

-- The row that an update writes over the row `e`; the log may mark it as a deletion.
pub record IsUpdate (key value : Bytes) (lease : ℕ) (e new : Row) : Type 0 where
  pub key_eq : new.key ≡ key
  pub value_eq : new.value ≡ value
  pub lease_eq : new.lease ≡ lease
  pub updates : new.created ≡ false
  pub prev_eq : new.prev_revision ≡ e.revision
  pub create_eq : new.create_revision ≡ (if e.created then e.revision else e.create_revision)

module _ {S : Type 0} {L : Log S} (laws : LogLaws L) where
  -- Nothing is written, before or after what the other clients did.
  abbrev pub Unchanged : S → S → S → Type 0
  Unchanged s s' s'' = (laws.rows s'' ≡ laws.rows s) ⊎ (laws.rows s'' ≡ laws.rows s')

  abbrev Updated : Bytes → Bytes → ℕ → ℕ → S → S → S → Bool → Type 0
  Updated key value revision lease s s' s'' true =
      (e : Row) × (new : Row) × (e.deleted ≡ false)
      × (e.revision ≡ revision)
      × IsUpdate key value lease e new
      × Written laws key s' (some e) new s''
  Updated key value revision lease s s' s'' false = Unchanged s s' s''

  -- What an update does, by the flag that it returns.
  abbrev pub UpdateOutcome :
      Bytes → Bytes → ℕ → ℕ → S → S → S × (ℕ × Option KeyValue × Bool × Option Error) → Type 0
  UpdateOutcome key value revision lease s s' (s'', (rev, kv, done, e)) =
      Updated key value revision lease s s' s'' done
