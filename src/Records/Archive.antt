-- ===== src/Records/Archive.antt =====
-- Archive records: packages/protocol/src/archive.ts and `mergeArchiveRecord` of
-- packages/control-node-core/src/catalog.ts.
mod Examples
pub mod Merge
use agent_multiplex.Base.{
  ℕ, Bool, true, false, not, ◌&&◌, Option, none, some, ◌==◌, ltb, same_option, if◌then◌else◌,
}
use agent_multiplex.Errors.{payload_mismatch, conflict, Result, ok, err, ◌>>=◌, ◌>>◌, require}
use agent_multiplex.Records.Authority.{AuthorityRef, same_authority}
use agent_multiplex.Records.Timestamp.{compare_operation_timestamp, is_negative, is_positive}

pub data ArchiveState : Type 0 where
  accepted releasing succeeded failed outcome_unknown : ArchiveState

pub record Archive : Type 0 where
  pub archive_operation_id : ℕ
  pub payload_hash : ℕ
  pub session_id : ℕ
  pub runtime_node_id : ℕ
  pub binding_revision : ℕ
  pub expected_authority : AuthorityRef
  pub authority : AuthorityRef
  pub state : ArchiveState
  pub released_at : Option ℕ
  pub catalog_revision : Option ℕ
  pub error : Option ℕ
  pub created_at : ℕ
  pub updated_at : ℕ

abbrev is_present {ℓ} : {A : Type ℓ} → Option A → Bool
is_present none = false
is_present (some a) = true

abbrev pub rank : ArchiveState → ℕ
rank accepted = 0
rank releasing = 1
rank succeeded = 2
rank failed = 2
rank outcome_unknown = 2

abbrev pub is_terminal : ArchiveState → Bool
is_terminal succeeded = true
is_terminal failed = true
is_terminal outcome_unknown = true
is_terminal _ = false

-- The refinement of `archiveRecordSchema` apart from its authority check, by the state.
abbrev pub refine_archive : ArchiveState → Archive → Bool
refine_archive succeeded r =
    is_present r.released_at && (is_present r.catalog_revision && not (is_present r.error))
refine_archive failed r =
    not (is_present r.released_at) && (not (is_present r.catalog_revision) && is_present r.error)
refine_archive outcome_unknown r =
    not (is_present r.released_at) && (not (is_present r.catalog_revision) && is_present r.error)
refine_archive _ r =
    not (is_present r.released_at)
    && (not (is_present r.catalog_revision) && not (is_present r.error))

pub valid_archive : Archive → Bool
valid_archive r = same_authority r.expected_authority r.authority && refine_archive r.state r

abbrev state_code : ArchiveState → ℕ
state_code accepted = 0
state_code releasing = 1
state_code succeeded = 2
state_code failed = 3
state_code outcome_unknown = 4

abbrev same_state : ArchiveState → ArchiveState → Bool
same_state a b = state_code a == state_code b

-- The fields of `identity`.
pub same_archive_identity : Archive → Archive → Bool
same_archive_identity l r =
    (l.archive_operation_id == r.archive_operation_id)
    && ((l.payload_hash == r.payload_hash)
        && ((l.session_id == r.session_id)
            && ((l.runtime_node_id == r.runtime_node_id)
                && ((l.binding_revision == r.binding_revision)
                    && (same_authority l.expected_authority r.expected_authority
                        && (same_authority l.authority r.authority
                            && (l.created_at == r.created_at)))))))

-- `sameCanonicalJson` of two archive records.
pub same_archive : Archive → Archive → Bool
same_archive l r =
    same_archive_identity l r
    && (same_state l.state r.state
        && (same_option l.released_at r.released_at
            && (same_option l.catalog_revision r.catalog_revision
                && (same_option l.error r.error && (l.updated_at == r.updated_at)))))

module _ (instant : ℕ → ℕ) where
  -- `mergeArchiveRecord` after the two records are known to differ.
  pub advance_archive : Archive → Archive → Result Archive
  advance_archive cur inc =
      let recency = compare_operation_timestamp instant inc.updated_at cur.updated_at in
      if is_terminal cur.state
      then err conflict
      else if ltb (rank inc.state) (rank cur.state)
      then (if is_positive recency then err conflict else ok cur)
      else if ltb (rank cur.state) (rank inc.state)
      then (if is_negative recency then err conflict else ok inc)
      else if is_negative recency
      then ok cur
      else ok inc

  pub merge_archive : Archive → Archive → Result Archive
  merge_archive cur inc = do
    require (same_archive_identity cur inc) payload_mismatch
    if same_archive cur inc then ok cur else advance_archive cur inc
