-- ===== src/Store/Ranking/Order.antt =====
-- The files stand in `m_file_sorted` by falling access count, and "sort index" restores that after
-- one count has grown. It changes nothing of a file but its place.
use workload.Prelude.{
  ℕ, zero, suc, ◌≤◌, ◌<◌, ◌≡◌, ◌≢◌, refl, ◌∙◌, arith, leb, true, Bool-cases, inl, inr, ◌==◌,
  if◌then◌else◌, get_or,
}
use workload.Store.Types.{access_count}
use workload.Store.Ranking.{Ranked, rise, sort_index}
use workload.Store.Ranking.Places.{
  IsIndexed, rise_sorted, rise_self, rise-IsIndexed, sort_index-IsIndexed,
}

-- The access count of the file at place `j`.
abbrev pub key : Ranked → ℕ → ℕ
key r j = access_count (r.file (get_or r.sorted j 0))

abbrev pub IsRanked : ℕ → Ranked → Type 0
IsRanked n r = (j : ℕ) → suc j < n → key r (suc j) ≤ key r j

-- In order but for the place `i`, whose file may belong further up.
record AlmostRanked (n i : ℕ) (r : Ranked) : Type 0 where
  edges : (j : ℕ) → suc j < n → suc j ≢ i → key r (suc j) ≤ key r j
  bridge : (j : ℕ) → suc j ≡ i → suc i < n → key r (suc i) ≤ key r j

rise_file :
    (f i : ℕ) (r : Ranked) (x : ℕ)
    → (rise f i r).file x ≡ record (r.file x) { index = ((rise f i r).file x).index }
unfolding rise
rise_file f i r x = ground arith

-- What "sort index" leaves of a file: all but the place.
pub sort_index_file :
    (f count i : ℕ) (r : Ranked) (x : ℕ)
    → (sort_index f count i r).file x
      ≡ record (r.file x) { index = ((sort_index f count i r).file x).index }
unfolding sort_index
sort_index_file f count zero r x = refl
sort_index_file f count (suc i) r x =
    ground (arith, sort_index_file f count i (rise f i r) x, rise_file f i r x)

module _ (n f i : ℕ) (r : Ranked) (v : IsIndexed n r) (hf : f < n)
    (at : (r.file f).index ≡ suc i) where
  rise_count : (x : ℕ) → access_count ((rise f i r).file x) ≡ access_count (r.file x)
  rise_count x = rw (rise_file f i r x) refl

  key-rise :
      (j : ℕ)
      → key (rise f i r) j
        ≡ (if i == j then access_count (r.file f) else if suc i == j then key r i else key r j)
  key-rise j =
      ground (arith, rise_count (get_or (rise f i r).sorted j 0), rise_sorted n f i r v hf at j)

  self : get_or r.sorted (suc i) 0 ≡ f
  self = rw at at (v.stands f hf)

  rise-AlmostRanked :
      AlmostRanked n (suc i) r
      → access_count (r.file (get_or r.sorted i 0)) < access_count (r.file f)
      → AlmostRanked n i (rise f i r)
  rise-AlmostRanked a lt = record {
    edges = λ j hj hn.
        ground (arith, key-rise j, key-rise (suc j), a.edges j hj, a.bridge i refl, self);
    bridge = λ j e hi. ground (arith, key-rise j, key-rise (suc i), a.edges j);
  }

settled_IsRanked :
    (n f count i : ℕ) (r : Ranked)
    → IsIndexed n r
    → f < n
    → (r.file f).index ≡ suc i
    → access_count (r.file f) ≡ count
    → AlmostRanked n (suc i) r
    → leb count (access_count (r.file (get_or r.sorted i 0))) ≡ true
    → IsRanked n r
settled_IsRanked n f count i r v hf at e a stop =
    λ j hj. ground (arith, a.edges j hj, self n f i r v hf at)

-- "sort index", started at the place of a file whose count is `count`, restores the order.
sort_index-IsRanked_from :
    (n f count i : ℕ) (r : Ranked)
    → IsIndexed n r
    → f < n
    → (r.file f).index ≡ i
    → access_count (r.file f) ≡ count
    → AlmostRanked n i r
    → IsRanked n (sort_index f count i r)
unfolding sort_index
sort_index-IsRanked_from n f count zero r v hf at e a = λ j hj. a.edges j hj (λ z. omega arith)
sort_index-IsRanked_from n f count (suc i) r v hf at e a =
    elim (Bool-cases (leb count (access_count (r.file (get_or r.sorted i 0))))) [
      | inl stop ↦ rw stop (settled_IsRanked n f count i r v hf at e a stop)
      | inr go ↦ rw go (
          sort_index-IsRanked_from n f count i (rise f i r) (rise-IsIndexed n f i r v hf at) hf
            (rise_self n f i r v hf at) (rise_count n f i r v hf at f ∙ e)
            (rise-AlmostRanked n f i r v hf at a (ground arith)))
    ]

-- The counts of all files but `f` are those of `r`, the places too, and the count of `f` has grown.
pub record Grown (f : ℕ) (r s : Ranked) : Type 0 where
  pub sorted : s.sorted ≡ r.sorted
  pub index : (x : ℕ) → (s.file x).index ≡ (r.file x).index
  pub others : (x : ℕ) → x ≢ f → access_count (s.file x) ≡ access_count (r.file x)
  pub more : access_count (r.file f) ≤ access_count (s.file f)

module _ (n f : ℕ) (r s : Ranked) (v : IsIndexed n r) (hf : f < n) (g : Grown f r s) where
  pub grown-IsIndexed : IsIndexed n s
  grown-IsIndexed = record {
    size = rw g.sorted v.size;
    place = λ i hi. rw (g.sorted, g.index) (v.place i hi);
    known = λ i hi. rw g.sorted (v.known i hi);
    stands = λ x hx. rw (g.sorted, g.index) (v.stands x hx);
    inside = λ x hx. rw g.index (v.inside x hx);
  }

  grown_key_other : (j : ℕ) → j < n → j ≢ (r.file f).index → key s j ≡ key r j
  grown_key_other j hj ne =
      rw g.sorted (g.others (get_or r.sorted j 0) (λ e. ne (ground (arith, v.place j hj))))

  grown_key_self : key r (r.file f).index ≤ key s (r.file f).index
  grown_key_self = rw (g.sorted, v.stands f hf) g.more

  grown-AlmostRanked : IsRanked n r → AlmostRanked n (r.file f).index s
  grown-AlmostRanked o = record {
    edges = λ j hj ne.
        ground (arith, o j hj, grown_key_other j, grown_key_other (suc j), grown_key_self);
    bridge =
        λ j e hi. ground (arith, o j, o (suc j), grown_key_other j, grown_key_other (suc (suc j)));
  }

  -- The array is in order again after "sort index", if it was before the count of `f` grew.
  pub sort_index-IsRanked :
      IsRanked n r → IsRanked n (sort_index f (access_count (s.file f)) (s.file f).index s)
  sort_index-IsRanked o =
      sort_index-IsRanked_from n f (access_count (s.file f)) (s.file f).index s grown-IsIndexed hf
        refl refl (rw g.index (grown-AlmostRanked o))

  pub sort_index_grown-IsIndexed :
      IsIndexed n (sort_index f (access_count (s.file f)) (s.file f).index s)
  sort_index_grown-IsIndexed =
      sort_index-IsIndexed n f (access_count (s.file f)) (s.file f).index s grown-IsIndexed hf refl
