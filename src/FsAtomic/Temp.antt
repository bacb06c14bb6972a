-- ===== src/FsAtomic/Temp.antt =====
-- The temporary name of src-tauri/src/fs_atomic.rs: it is free, and it is not the target's.
use native.Mathlib.Nat.{add-zero}
use replyline.Prelude.Decimal.{display}
use replyline.Prelude.{
  Bool-cases, arith, codes, false, inl, inr, none, ok, subst, suc, text_eq-append, text_eq_iff,
  true, zero, ℕ, ◌++◌, ◌+◌, ◌<◌, ◌↔◌, ◌≡◌,
}
use replyline.FsAtomic.{Disk, FilePath, exists, path_eq, reserve_from, temp_candidate}

pub path_eq_iff : (p q : FilePath) → (path_eq p q ≡ true) ↔ (p ≡ q)
path_eq_iff p q = (
  λ h. ground (arith, text_eq_iff p.parent q.parent, text_eq_iff p.file_name q.file_name),
  λ h. ground (arith, text_eq_iff p.parent q.parent, text_eq_iff p.file_name q.file_name),
)

pub temp_candidate-ne : (p : FilePath) (suffix : ℕ) → path_eq p (temp_candidate p suffix) ≡ false
unfolding temp_candidate
temp_candidate-ne p suffix = ground (
  arith,
  text_eq-append p.file_name b'.' (codes "tmp"),
  text_eq-append p.file_name b'.' (display suffix ++ codes ".tmp"),
)

module _ {B : Type 0} (disk : Disk B) (path : FilePath) where
  -- A reserved path is a candidate, and nothing is there.
  pub reserve_from_free :
      (left suffix : ℕ) (temp : FilePath)
      → reserve_from left suffix disk path ≡ ok temp
      → (path_eq path temp ≡ false) × (disk temp ≡ none)
  unfolding reserve_from
  reserve_from_free zero suffix temp h = absurd (cc)
  reserve_from_free (suc left) suffix temp h =
      elim (Bool-cases (exists disk (temp_candidate path suffix))) [
        | inl taken ↦ reserve_from_free left (suffix + 1) temp (rw taken at h)
        | inr free ↦ ground (arith, temp_candidate-ne path suffix)
      ]

  -- There is a candidate as long as one of those left is free.
  pub reserve_from_total :
      (left suffix k : ℕ)
      → k < left
      → exists disk (temp_candidate path (suffix + k)) ≡ false
      → (temp : FilePath) × (reserve_from left suffix disk path ≡ ok temp)
  unfolding reserve_from
  reserve_from_total zero suffix k h free = elim h [ ]
  reserve_from_total (suc left) suffix zero h free =
      let now : exists disk (temp_candidate path suffix) ≡ false = rw add-zero at free in
      (temp_candidate path suffix, rw now)
  reserve_from_total (suc left) suffix (suc k) h free =
      elim (Bool-cases (exists disk (temp_candidate path suffix))) [
        | inl taken ↦ rw taken (
            reserve_from_total left (suffix + 1) k (omega arith)
              (subst (λ j. exists disk (temp_candidate path j) ≡ false) (omega arith) free))
        | inr now ↦ (temp_candidate path suffix, rw now)
      ]
