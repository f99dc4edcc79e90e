-- ===== src/Api/Images/Slugs.antt =====
-- What the check of a slug establishes.
use Prim.Native.Char.{Char, code}
use knpodly.Base.{
  ◌≡◌, ◌≢◌, refl, String, Bool, true, false, ◌&&◌, ◌||◌, ◌==◌, arith, inl, inr, Bool-cases,
}
use knpodly.Python.{Builtins}
use knpodly.Api.Images.{without_marks, all_alnum, isalnum, slug_ok, has_slash}

no_slash :
    (is_alnum : Char → Bool) (s : String)
    → ((c : Char) → (code c == 47) ≡ true → is_alnum c ≡ false)
    → all_alnum is_alnum (without_marks s) ≡ true
    → has_slash s ≡ false
unfolding without_marks all_alnum has_slash
no_slash is_alnum String.[] law h = refl
no_slash is_alnum (String.◌∷◌ c s) law h = elim (Bool-cases (code c == 47)) [
  | inl slash ↦ ground (arith, slash, law c slash)
  | inr other ↦ elim (Bool-cases (code c == 45 || code c == 46)) [
    | inl mark ↦ rw other (no_slash is_alnum s law (rw mark at h))
    | inr plain ↦
        let read : (is_alnum c && all_alnum is_alnum (without_marks s)) ≡ true = rw plain at h in
        rw other (no_slash is_alnum s law (ground arith))
  ]
]

-- Where no slash is alphanumeric, a slug that the upload accepts names a direct sub-directory of the
-- image directory: it has no slash, and is neither empty nor one of the names "." and "..".
pub slug_ok-confined :
    (builtins : Builtins) (slug : String)
    → ((c : Char) → (code c == 47) ≡ true → builtins.is_alnum c ≡ false)
    → slug_ok builtins slug ≡ true
    → (has_slash slug ≡ false) × (slug ≢ "") × (slug ≢ ".") × (slug ≢ "..")
unfolding isalnum without_marks
slug_ok-confined builtins slug law h = (
  no_slash builtins.is_alnum slug law (ground arith),
  λ e. not_ok "" refl (rw e at h),
  λ e. not_ok "." refl (rw e at h),
  λ e. not_ok ".." refl (rw e at h),
)
  where
    not_ok : (s : String) → without_marks s ≡ "" → slug_ok builtins s ≡ true → ⊥
    not_ok s empty accepted = let bad = rw empty at accepted in cc
