-- ===== src/Tests/Tokens.antt =====
-- A signature scheme for the samples that keeps the documented laws: the password is its own hash,
-- and a token spells its kind and its subject, each character after a mark.
use Prim.Native.Char.{Char, code}
use knpodly.Base.{◌≡◌, refl, String, some, ap, ◌==◌, str_eq, if◌then◌else◌}
use text.Mathlib.TextPositions.{eq_refl}
use knpodly.Security.{Crypto, CryptoLaws}

spell : String → String → String
spell String.[] rest = String.◌∷◌ "0" rest
spell (String.◌∷◌ c s) rest = String.◌∷◌ "1" (String.◌∷◌ c (spell s rest))

-- The text that was spelled, and the rest.
read : String → String × String
read String.[] = ("", "")
read (String.◌∷◌ mark String.[]) = ("", "")
read (String.◌∷◌ mark (String.◌∷◌ c s)) =
    let (t, rest) = read s in
    if code mark == 48 then ("", String.◌∷◌ c s) else (String.◌∷◌ c t, rest)

read-spell :
    (s : String) (c : Char) (rest : String)
    → read (spell s (String.◌∷◌ c rest)) ≡ (s, String.◌∷◌ c rest)
unfolding spell read
read-spell String.[] c rest = refl
read-spell (String.◌∷◌ d s) c rest =
    ap (λ (p : String × String). let q : String × String = (String.◌∷◌ d p.0, p.1) in q)
      (read-spell s c rest)

unfoldable pub toy_crypto : Crypto
unfolding spell read
toy_crypto = record {
  hash = λ salt password. password;
  verify = λ password hash. str_eq password hash;
  encode = λ c. spell c.kind (spell c.sub "!");
  decode = λ now token.
      let (kind, rest) = read token in
      let (sub, _) = read rest in some (record { kind = some kind; sub = some sub });
}

read-spell_twice : (s t : String) → read (spell s (spell t "!")) ≡ (s, spell t "!")
unfolding spell
read-spell_twice s String.[] = read-spell s "0" "!"
read-spell_twice s (String.◌∷◌ c t) = read-spell s "1" (String.◌∷◌ c (spell t "!"))

pub toy_crypto-CryptoLaws : CryptoLaws toy_crypto
unfolding toy_crypto
toy_crypto-CryptoLaws = record {
  verify-hash = λ salt password. eq_refl password;
  decode-encode = λ now c later. rw (read-spell_twice c.kind c.sub, read-spell c.sub "!" "") refl;
}
