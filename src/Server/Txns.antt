-- ===== src/Server/Txns.antt =====
-- pkg/server: `compact` (compact.go) and `Txn` (server.go).
use harikube.Common.{ℕ, ◌+◌, Bytes, true, false, Option, none, some, [], ◌∷◌, ◌==◌, if◌then◌else◌}
use harikube.Api.{Error, KeyValue, empty_kv, Backend}
use harikube.Server
use harikube.Server.{is_create, is_delete, is_update, is_compact, compact_rev_key, compact_rev_api}
use harikube.Server.Requests.{TxnRequest, TxnResponse, PutRequest, range_done, Reply, ok, failed}
use harikube.Server.Version.{encode_version, decode_version}

-- The version and the value that are stored; 0 and nothing where the key is missing.
abbrev pub stored_version : Option KeyValue → ℕ × Bytes
stored_version none = (0, [])
stored_version (some kv) = decode_version kv.value

abbrev pub stored_revision : Option KeyValue → ℕ
stored_revision none = 0
stored_revision (some kv) = kv.mod_revision

-- The response of a comparison that fails: the current version and value.
unfoldable pub version_response : ℕ → ℕ × Bytes → TxnResponse
version_response rev (version, value) = record {
  header = rev;
  succeeded = false;
  responses =
      range_done (record {
        header = 0;
        kvs = record empty_kv { key = compact_rev_key; version = version; value = value } ∷ [];
        more = false;
        count = 1;
      })
      ∷ [];
}

module _ {S : Type 0} (B : Backend S) where
  -- The write: what it returns besides its error and the revision is dropped.
  pub compact_write : ℕ → ℕ → Bytes → S → S × (ℕ × Option Error)
  compact_write version mod_rev value s =
      let (s', (rev', _, _, e')) = B.update compact_rev_api value mod_rev 0 s in
      if version == 0 then B.create compact_rev_api value 0 s else (s', (rev', e'))

  -- After a write that failed, the version is read again; it stays if the key is gone.
  compact_reread : ℕ × Bytes → S → ℕ × Option KeyValue × Option Error → S × Reply TxnResponse
  compact_reread old s (rev, kv, some e) = (s, failed e)
  compact_reread old s (rev, none, none) = (s, ok (version_response rev old))
  compact_reread old s (rev, some kv, none) =
      (s, ok (version_response rev (decode_version kv.value)))

  pub compact_written : ℕ × Bytes → S × (ℕ × Option Error) → S × Reply TxnResponse
  compact_written old (s, (rev, some e)) = compact_reread old s (B.get compact_rev_api 0 false s)
  compact_written old (s, (rev, none)) =
      (s, ok (record { header = rev; succeeded = true; responses = [] }))

  pub compact_read :
      (S → S) → ℕ → Bytes → S → ℕ × Option KeyValue × Option Error → S × Reply TxnResponse
  compact_read others compare value s (rev, kv, some e) = (s, failed e)
  compact_read others compare value s (rev, kv, none) =
      let (version, _) = stored_version kv in
      if compare == version
      then compact_written (stored_version kv) (
          compact_write version (stored_revision kv) (encode_version (version + 1) value)
            (others s))
      else (s, ok (version_response rev (stored_version kv)))

  -- `LimitedServer.compact`; `others` is what other clients do between the read and the write.
  unfoldable pub compact : (S → S) → ℕ → Bytes → S → S × Reply TxnResponse
  unfolding compact_read compact_written compact_reread compact_write
  compact others compare value s =
      compact_read others compare value s (B.get compact_rev_api 0 false s)

  -- `LimitedServer.Compact`
  compact_request : ℕ → S → S × (ℕ × Option Error)
  compact_request revision s = B.compact revision s

  module _ (register : Bytes → Option Error) where
    txn_compact : Option (ℕ × Bytes) → S → S × Reply TxnResponse
    txn_compact (some (version, value)) s = compact (λ x. x) version value s
    txn_compact none s = (s, failed Error.not_supported)

    txn_update : Option (ℕ × Bytes × Bytes × ℕ) → TxnRequest → S → S × Reply TxnResponse
    txn_update (some (rev, key, value, lease)) r s = Server.update B register rev key value lease s
    txn_update none r s = txn_compact (is_compact r) s

    txn_delete : Option (ℕ × Bytes) → TxnRequest → S → S × Reply TxnResponse
    txn_delete (some (rev, key)) r s = Server.delete B register key rev s
    txn_delete none r s = txn_update (is_update r) r s

    txn_create : Option PutRequest → TxnRequest → S → S × Reply TxnResponse
    txn_create (some put) r s = Server.create B register put s
    txn_create none r s = txn_delete (is_delete r) r s

    -- `LimitedServer.Txn`
    unfoldable pub txn : TxnRequest → S → S × Reply TxnResponse
    unfolding txn_create txn_delete txn_update txn_compact
    txn r s = txn_create (is_create r) r s
