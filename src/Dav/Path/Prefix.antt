-- ===== src/Dav/Path/Prefix.antt =====
-- Prefixes of paths, as src/web/dav.rs compares them.
use ii.Prelude.{◌≡◌, ◌↔◌, refl, true, ◌||◌, some, [], ◌∷◌, ◌++◌, arith}
use ii.Prelude.Text.{str_eq_iff, str_eq_refl}
use ii.Dav.Path.{FilePath, strip_path, starts_with, path_eq}

path_eq_sound : (p q : FilePath) → path_eq p q ≡ true → p ≡ q
path_eq_sound [] [] h = refl
path_eq_sound [] (b ∷ q) h = ground arith
path_eq_sound (a ∷ p) [] h = ground arith
path_eq_sound (a ∷ p) (b ∷ q) h = ground (arith, str_eq_iff a b, path_eq_sound p q)

pub path_eq_refl : (p : FilePath) → path_eq p p ≡ true
path_eq_refl [] = refl
path_eq_refl (a ∷ p) = ground (arith, str_eq_refl a, path_eq_refl p)

pub path_eq_iff : (p q : FilePath) → (path_eq p q ≡ true) ↔ (p ≡ q)
path_eq_iff p q = (path_eq_sound p q, λ e. rw e (path_eq_refl q))

pub strip_path_sound : (b p s : FilePath) → strip_path b p ≡ some s → p ≡ b ++ s
strip_path_sound [] p s h = ground arith
strip_path_sound (a ∷ b) [] s h = ground arith
strip_path_sound (a ∷ b) (c ∷ p) s h = ground (arith, str_eq_iff a c, strip_path_sound b p s)

pub strip_path-append : (b s : FilePath) → strip_path b (b ++ s) ≡ some s
strip_path-append [] s = refl
strip_path-append (a ∷ b) s = ground (arith, str_eq_refl a, strip_path-append b s)

pub starts_with_refl : (p : FilePath) → starts_with p p ≡ true
starts_with_refl [] = refl
starts_with_refl (a ∷ p) = ground (arith, str_eq_refl a, starts_with_refl p)

pub starts_with-append : (p b s : FilePath) → starts_with p b ≡ true → starts_with (p ++ s) b ≡ true
starts_with-append p [] s h = refl
starts_with-append [] (a ∷ b) s h = ground arith
starts_with-append (c ∷ p) (a ∷ b) s h = ground (arith, starts_with-append p b s)

-- A path below a longer path is below the shorter one.
pub starts_with_shorter :
    (p d s : FilePath) → starts_with p (d ++ s) ≡ true → starts_with p d ≡ true
starts_with_shorter p [] s h = refl
starts_with_shorter [] (a ∷ d) s h = ground arith
starts_with_shorter (c ∷ p) (a ∷ d) s h = ground (arith, starts_with_shorter p d s)

-- Two prefixes of one path are comparable.
pub starts_with_comparable :
    (d s p : FilePath) → starts_with (d ++ s) p ≡ true → (starts_with d p || starts_with p d) ≡ true
starts_with_comparable [] s [] h = refl
starts_with_comparable [] s (b ∷ p) h = refl
starts_with_comparable (a ∷ d) s [] h = refl
starts_with_comparable (a ∷ d) s (b ∷ p) h =
    ground (arith, str_eq_iff a b, str_eq_iff b a, starts_with_comparable d s p)

pub starts_with-append_append : (b s t : FilePath) → starts_with (b ++ s) (b ++ t) ≡ starts_with s t
starts_with-append_append [] s t = refl
starts_with-append_append (a ∷ b) s t =
    ground (arith, str_eq_refl a, starts_with-append_append b s t)

pub path_eq-append : (b s t : FilePath) → path_eq (b ++ s) (b ++ t) ≡ path_eq s t
path_eq-append [] s t = refl
path_eq-append (a ∷ b) s t = ground (arith, str_eq_refl a, path_eq-append b s t)
