-- ===== src/ServiceConfig/Versions/Pages.antt =====
-- The pages of a history: apps/api/src/modules/service-config/version-history.ts, and listVersions of
-- the repositories.
use voyya_backend.ServiceConfig.Versions.Newest.{
  Desc, append_nil, assoc, drop, filter-order, has_more, last_of, length-drop, older, order-Desc,
  take-all, take-drop, take-take,
}
use voyya_backend.Prelude.{
  ℕ, zero, suc, ◌+◌, ◌<◌, ◌≡◌, refl, sym, ap, ◌∙◌, subst, inl, inr, false, Option, none, some, List,
  [], ◌∷◌, ◌++◌, arith, ltb, if◌then◌else◌, Bool-cases, length, filter, take, filter-filter,
}
use voyya_backend.ServiceConfig.Versions.{
  Key, Version, VersionPage, is_for, order_desc, is_before, last_id, list_versions, page_versions,
  history_page,
}
use voyya_backend.ServiceConfig.Versions.Intervals.{IsTimeline}

module _ {K V : Type 0} ⦃k : Key K⦄ where
  -- A reader who asks for a page, and for the next as long as the page names one.
  unfoldable pub walk : ℕ → K → ℕ → Option ℕ → List (Version K V) → List (Version K V)
  unfolding history_page
  walk zero key limit before versions = []
  walk (suc fuel) key limit before versions =
      let page = history_page key before limit versions in
      page.versions
      ++ elim page.next_before [ none ↦ [] | some id ↦ walk fuel key limit (some id) versions ]

  module _ (key : K) (versions : List (Version K V)) (timeline : IsTimeline versions) where
    abbrev history : List (Version K V)
    history = order_desc (filter (is_for key) versions)

    history-Desc : Desc history
    history-Desc = order-Desc (filter (is_for key) versions) (timeline key)

    listed :
        (before : Option ℕ) (n : ℕ)
        → list_versions key before n versions ≡ take n (filter (is_before before) history)
    unfolding list_versions
    listed before n = ap (take n) (
        ap order_desc (sym (filter-filter (is_for key) (is_before before) versions))
        ∙ filter-order (is_before before) (filter (is_for key) versions) (timeline key))

    abbrev page_of : ℕ → List (Version K V) → VersionPage K V
    page_of limit rest = record {
      versions = take limit rest;
      next_before = if ltb limit (length rest) then last_id (take limit rest) else none;
    }

    paged :
        (before : Option ℕ) (limit : ℕ)
        → history_page key before limit versions ≡ page_of limit (filter (is_before before) history)
    unfolding history_page page_versions
    paged before limit =
        let rest = filter (is_before before) history in
        ap (λ n. page_versions (list_versions key before n versions) limit) plus_one
        ∙ ap (λ rows. page_versions rows limit) (listed before (suc limit))
        ∙ one_more rest
      where
        plus_one : limit + 1 ≡ suc limit
        plus_one = omega arith

        one_more :
            (rest : List (Version K V))
            → page_versions (take (suc limit) rest) limit ≡ page_of limit rest
        one_more rest = rw (take-take limit rest, has_more limit rest) refl

    -- Walking from what is left after the versions that were seen gives what is left.
    abbrev WalksFrom : ℕ → ℕ → Type 0
    WalksFrom fuel limit =
        (before : Option ℕ) (seen rest : List (Version K V))
        → history ≡ seen ++ rest
        → filter (is_before before) history ≡ rest
        → length rest < fuel
        → walk fuel key limit before versions ≡ rest

    abbrev follow : ℕ → ℕ → VersionPage K V → List (Version K V)
    follow fuel limit page =
        page.versions
        ++ elim page.next_before [ none ↦ [] | some id ↦ walk fuel key limit (some id) versions ]

    next_pages :
        (fuel n : ℕ)
        → WalksFrom fuel (suc n)
        → (seen : List (Version K V)) (x : Version K V) (xs : List (Version K V))
        → history ≡ seen ++ x ∷ xs
        → length xs < fuel
        → (id : ℕ) → last_id (take (suc n) (x ∷ xs)) ≡ some id
        → take (suc n) (x ∷ xs) ++ walk fuel key (suc n) (some id) versions ≡ x ∷ xs
    next_pages fuel n ih seen x xs e l id i =
        let (ys, y, t, i') = last_of x (take n xs) in
        let d = drop (suc n) (x ∷ xs) in
        let all = take-drop (suc n) (x ∷ xs) in
        let at_y : history ≡ (seen ++ ys) ++ y ∷ d =
          e
          ∙ ap (λ r. seen ++ r) (all ∙ ap (λ r. r ++ d) t ∙ assoc ys (y ∷ []) d)
          ∙ sym (assoc seen ys (y ∷ d)) in
        let same_id : y.id ≡ id = some_eq (sym i' ∙ i) in
        let left : filter (is_before (some y.id)) history ≡ d =
          subst (λ h. filter (is_before (some y.id)) h ≡ d) (sym at_y)
            (older y (seen ++ ys) d (subst Desc at_y history-Desc)) in
        let next =
          ih (some id) ((seen ++ ys) ++ y ∷ []) d (at_y ∙ sym (assoc (seen ++ ys) (y ∷ []) d))
            (subst (λ m. filter (is_before (some m)) history ≡ d) same_id left)
            (let s = length-drop n x xs in omega arith) in
        ap (λ r. take (suc n) (x ∷ xs) ++ r) next ∙ sym all
      where
        some_eq : {a b : ℕ} → some a ≡ some b → a ≡ b
        some_eq q = cc

    follow_page :
        (fuel n : ℕ)
        → WalksFrom fuel (suc n)
        → (seen rest : List (Version K V)) → history ≡ seen ++ rest
        → length rest < suc fuel
        → follow fuel (suc n) (page_of (suc n) rest) ≡ rest
    follow_page fuel n ih seen [] e l =
        let no_more : ltb (suc n) 0 ≡ false = ground arith in rw no_more refl
    follow_page fuel n ih seen (x ∷ xs) e l = elim (Bool-cases (ltb (suc n) (length (x ∷ xs)))) [
      | inl more ↦
          let (ys, y, t, i) = last_of x (take n xs) in
          rw (more, i) (next_pages fuel n ih seen x xs e (omega arith) y.id i)
      | inr done' ↦
          rw done'
            (append_nil (take (suc n) (x ∷ xs)) ∙ take-all (suc n) (x ∷ xs) (ground (arith, done')))
    ]

    walk-WalksFrom : (fuel n : ℕ) → WalksFrom fuel (suc n)
    unfolding walk
    walk-WalksFrom zero n before seen rest e f l = absurd (omega arith)
    walk-WalksFrom (suc fuel) n before seen rest e f l =
        ap (follow fuel (suc n)) (paged before (suc n))
        ∙ ap (λ r. follow fuel (suc n) (page_of (suc n) r)) f
        ∙ follow_page fuel n (walk-WalksFrom fuel n) seen rest e l

    -- Where the versions for each key are a chain, a reader of pages of any size, who has as much
    -- fuel as the key has versions and one more, reads the versions of the key, newest first, each
    -- once.
    pub walk_lem :
        (limit : ℕ) → 0 < limit → walk (suc (length history)) key limit none versions ≡ history
    walk_lem zero h = absurd (omega arith)
    walk_lem (suc n) h =
        walk-WalksFrom (suc (length history)) n none [] history refl (all_kept history)
          (omega arith)
      where
        all_kept : (vs : List (Version K V)) → filter (is_before none) vs ≡ vs
        all_kept [] = refl
        all_kept (v ∷ vs) = ap (λ r. v ∷ r) (all_kept vs)
