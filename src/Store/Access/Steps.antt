-- ===== src/Store/Access/Steps.antt =====
-- source/workload_access.c: an access counts what it transferred, or changes nothing.
use workload.Prelude.{
  ℕ, ◌+◌, ◌≡◌, refl, arith, Bool, true, false, ◌&&◌, ◌||◌, not, inl, inr, ◌⊎◌, Option, none, some,
  if◌then◌else◌,
}
use workload.Prelude.Int.{ℤ, pos, minus_one}
use workload.Store.Types.{Workload}
use workload.Store.Access.{AccessIo, bit, transfer, note_access, access_on, file_access}

-- A transfer is not both a read and a write.
pub transfer-IsOne :
    (io : AccessIo) (d : ℕ) (w : Workload)
    → ((transfer io d w).read && (transfer io d w).write) ≡ false
unfolding transfer
transfer-IsOne io d w = ground arith

-- What the tests of an access leave to be looked at.
one_of :
    (named counted : Bool) (x y z : ℤ) (w v : Workload)
    → let (_, u) : ℤ × Workload =
        if not named then (x, w) else if counted then (y, v) else (z, w) in
      (u ≡ w) ⊎ (u ≡ v)
one_of false counted x y z w v = inl refl
one_of true true x y z w v = inr refl
one_of true false x y z w v = inl refl

access_on_note :
    (a : Option ℕ) (io : AccessIo) (f : ℕ) (w : Workload)
    → ((access_on a io f w).1 ≡ w)
      ⊎ ((d : ℕ) × (a ≡ some d) × ((access_on a io f w).1 ≡ note_access (transfer io d w) f d w))
unfolding access_on
access_on_note none io f w = inl refl
access_on_note (some d) io f w =
    let delta = transfer io d w in
    elim (one_of io.pathname (delta.read || delta.write) minus_one
      (pos (bit delta.read + bit delta.write)) (pos 0) w (note_access delta f d w)) [
        | inl same ↦ inl same
        | inr counted ↦ inr (d, refl, counted)
      ]

pub file_access_note :
    (io : AccessIo) (f : ℕ) (w : Workload)
    → ((file_access io f w).1 ≡ w)
      ⊎ ((d : ℕ) × ((w.file f).assign_disk ≡ some d)
          × ((file_access io f w).1 ≡ note_access (transfer io d w) f d w))
unfolding file_access
file_access_note io f w = access_on_note (w.file f).assign_disk io f w
