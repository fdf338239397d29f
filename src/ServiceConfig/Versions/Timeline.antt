-- ===== src/ServiceConfig/Versions/Timeline.antt =====
-- Transactions that write one table of versions, in any order:
-- apps/api/src/modules/service-config and its repositories.
use voyya_backend.Prelude.{
  ℕ, suc, ◌+◌, ◌≡◌, sym, ◌∙◌, true, ◌&&◌, List, [], ◌∷◌, arith, leb, filter, any, count, any-filter,
  count-filter,
}
use voyya_backend.ServiceConfig.Versions.{
  Key, Version, NewVersion, is_open, is_for, replace_open_version, insert_if_no_open_version,
}
use voyya_backend.ServiceConfig.Versions.Chains.{in_force, AllBelow, Chain-begun}
use voyya_backend.ServiceConfig.Versions.Intervals.{
  IsTimeline, AllBelow-more, replace-IsTimeline, replace-AllBelow, insert-IsTimeline,
  insert-AllBelow,
}

-- The versions, and what the sequence of their identifiers has come to.
pub record Table (K V : Type 0) : Type 0 where
  pub versions : List (Version K V)
  pub sequence : ℕ

-- One write: the identifiers that the sequence has skipped, the start of the transaction, and the
-- arguments.
pub data Write (K V : Type 0) : Type 0 where
  replaces : ℕ → ℕ → ℕ → NewVersion K V → Write K V
  inserts : ℕ → ℕ → NewVersion K V → Write K V

module _ {K V : Type 0} ⦃k : Key K⦄ where
  abbrev pub write : Write K V → Table K V → Table K V
  write (replaces skipped now expected next) t =
      let id = t.sequence + skipped in
      record {
        versions = (replace_open_version id now expected next t.versions).1;
        sequence = suc id;
      }
  write (inserts skipped now next) t =
      let id = t.sequence + skipped in
      record { versions = (insert_if_no_open_version id now next t.versions).1; sequence = suc id }

  unfoldable pub write_all : List (Write K V) → Table K V → Table K V
  write_all [] t = t
  write_all (w ∷ ws) t = write_all ws (write w t)

  abbrev pub IsTable : Table K V → Type 0
  IsTable t = IsTimeline t.versions × AllBelow t.sequence t.versions

  write-IsTable : (w : Write K V) (t : Table K V) → IsTable t → IsTable (write w t)
  write-IsTable (replaces skipped now expected next) t h =
      let id = t.sequence + skipped in
      let below = AllBelow-more t.sequence id t.versions (omega arith) h.1 in
      (
        replace-IsTimeline id now expected next t.versions h.0 below,
        replace-AllBelow id now expected next t.versions below,
      )
  write-IsTable (inserts skipped now next) t h =
      let id = t.sequence + skipped in
      let below = AllBelow-more t.sequence id t.versions (omega arith) h.1 in
      (insert-IsTimeline id now next t.versions h.0, insert-AllBelow id now next t.versions below)

  pub write_all-IsTable :
      (ws : List (Write K V)) (t : Table K V) → IsTable t → IsTable (write_all ws t)
  unfolding write_all
  write_all-IsTable [] t h = h
  write_all-IsTable (w ∷ ws) t h = write_all-IsTable ws (write w t) (write-IsTable w t h)

  -- Writes in any order, whatever the clocks of their transactions say, to a table whose versions are
  -- a chain for each key: at every instant by which a version of a key has begun, exactly one version
  -- of the key is in force, and exactly one is open.
  pub write_all_lem :
      (ws : List (Write K V)) (t : Table K V) (key : K) (instant : ℕ)
      → IsTable t
      → let versions = (write_all ws t).versions in
        any (λ v. is_for key v && leb v.valid_from instant) versions ≡ true
        → (count (λ v. is_for key v && in_force instant v) versions ≡ 1)
          × (count (λ v. is_for key v && is_open v) versions ≡ 1)
  write_all_lem ws t key instant h e =
      let versions = (write_all ws t).versions in
      let begun =
        any-filter (is_for key) (λ (v : Version K V). leb v.valid_from instant) versions ∙ e in
      let (one, open') =
        Chain-begun instant (filter (is_for key) versions) ((write_all-IsTable ws t h).0 key)
          begun in
      (
        sym (count-filter (is_for key) (in_force instant) versions) ∙ one,
        sym (count-filter (is_for key) is_open versions) ∙ open',
      )
