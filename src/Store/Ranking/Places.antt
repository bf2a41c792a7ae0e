-- ===== src/Store/Ranking/Places.antt =====
-- The array `m_file_sorted` and the field `m_index` are inverse to one another.
use workload.Prelude.{
  ℕ, zero, suc, Bool-cases, inl, inr, leb, ◌<◌, ◌≡◌, refl, ◌∙◌, arith, ◌==◌, if◌then◌else◌, length,
  get_or, set, length-set, get_or-set,
}
use workload.Store.Types.{access_count}
use workload.Store.Ranking.{Ranked, rise, sort_index}

-- Every place holds a file that knows the place, and every file below `n` stands at its place.
pub record IsIndexed (n : ℕ) (r : Ranked) : Type 0 where
  pub size : length r.sorted ≡ n
  pub place : (i : ℕ) → i < n → (r.file (get_or r.sorted i 0)).index ≡ i
  pub known : (i : ℕ) → i < n → get_or r.sorted i 0 < n
  pub stands : (x : ℕ) → x < n → get_or r.sorted (r.file x).index 0 ≡ x
  pub inside : (x : ℕ) → x < n → (r.file x).index < n

module _ (n f i : ℕ) (r : Ranked) (v : IsIndexed n r) (hf : f < n)
    (at : (r.file f).index ≡ suc i) where
  below : suc i < n
  below = rw at at (v.inside f hf)

  pub rise_sorted :
      (j : ℕ)
      → get_or (rise f i r).sorted j 0
        ≡ (if i == j then f else if suc i == j then get_or r.sorted i 0 else get_or r.sorted j 0)
  unfolding rise
  rise_sorted j =
      let passed = get_or r.sorted i 0 in
      let wide : suc i < length r.sorted = omega (arith, v.size, below) in
      rw
        (
          get_or-set (set r.sorted (suc i) passed) i j f 0
              (omega (arith, length-set r.sorted (suc i) passed)),
          get_or-set r.sorted (suc i) j passed 0 wide,
        )
        refl

  rise_index :
      (x : ℕ)
      → ((rise f i r).file x).index
        ≡ (if f == x then i else if get_or r.sorted i 0 == x then suc i else (r.file x).index)
  unfolding rise
  rise_index x = ground arith

  rise_size : length (rise f i r).sorted ≡ n
  unfolding rise
  rise_size =
      length-set (set r.sorted (suc i) (get_or r.sorted i 0)) i f
      ∙ length-set r.sorted (suc i) (get_or r.sorted i 0)
      ∙ v.size

  pub rise_self : ((rise f i r).file f).index ≡ i
  rise_self = ground (arith, rise_index f)

  pub rise-IsIndexed : IsIndexed n (rise f i r)
  rise-IsIndexed = record {
    size = rise_size;
    place = λ j hj. ground (
      arith,
      rise_sorted j,
      rise_index f,
      rise_index (get_or r.sorted i 0),
      rise_index (get_or r.sorted j 0),
      v.place j hj,
      v.place i (omega (arith, below)),
    );
    known = λ j hj. grind (arith, rise_sorted j, v.known j hj, v.known i (omega (arith, below)));
    stands = λ x hx. ground (
      arith,
      rise_index x,
      rise_sorted i,
      rise_sorted (suc i),
      rise_sorted (r.file x).index,
      v.stands x hx,
      v.stands f hf,
    );
    inside = λ x hx. grind (arith, rise_index x, below, v.inside x hx);
  }

pub sort_index-IsIndexed :
    (n f count i : ℕ) (r : Ranked)
    → IsIndexed n r
    → f < n
    → (r.file f).index ≡ i
    → IsIndexed n (sort_index f count i r)
unfolding sort_index
sort_index-IsIndexed n f count zero r v hf at = v
sort_index-IsIndexed n f count (suc i) r v hf at =
    elim (Bool-cases (leb count (access_count (r.file (get_or r.sorted i 0))))) [
      | inl stop ↦ rw stop v
      | inr go ↦ rw go (
          sort_index-IsIndexed n f count i (rise f i r) (rise-IsIndexed n f i r v hf at) hf
            (rise_self n f i r v hf at))
    ]
