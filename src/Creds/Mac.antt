-- ===== src/Creds/Mac.antt =====
-- internal/creds/creds.go: the encoding that `mac` hashes is canonical.
use lemul.Prelude.{
  ℕ, ◌+◌, ◌*◌, ◌/◌, ◌%◌, ◌^◌, ◌<◌, ◌≡◌, ◌≢◌, refl, sym, ap, ◌∙◌, List, [], ◌∷◌, some, All, length,
  append-split, arith,
}
use lemul.Strconv.{int_limit}
use lemul.Prelude.Text.{Bytes, cut, cut-append}
use lemul.Creds.{put_uint64, mac_fields, mac_input}
use lemul.Creds.Wire.{Fits}

uint64 : ℕ → ℕ → ℕ → ℕ → ℕ → ℕ → ℕ → ℕ → ℕ
uint64 a b c d e f g h =
    a * 2 ^ 56 + b * 2 ^ 48 + c * 2 ^ 40 + d * 2 ^ 32 + e * 2 ^ 24 + f * 2 ^ 16 + g * 2 ^ 8 + h

uint64-put_uint64 :
    (n : ℕ)
    → n < int_limit
    → uint64
        (n / 2 ^ 56 % 256)
        (n / 2 ^ 48 % 256)
        (n / 2 ^ 40 % 256)
        (n / 2 ^ 32 % 256)
        (n / 2 ^ 24 % 256)
        (n / 2 ^ 16 % 256)
        (n / 2 ^ 8 % 256)
        (n % 256)
      ≡ n
unfolding uint64
uint64-put_uint64 n h = omega arith

uint64_of : Bytes → ℕ
uint64_of (a ∷ b ∷ c ∷ d ∷ e ∷ f ∷ g ∷ h ∷ []) = uint64 a b c d e f g h
uint64_of _ = 0

put_uint64-injective :
    (m n : ℕ) → m < int_limit → n < int_limit → put_uint64 m ≡ put_uint64 n → m ≡ n
unfolding put_uint64 uint64_of
put_uint64-injective m n hm hn e =
    sym (uint64-put_uint64 m hm) ∙ (ap uint64_of e ∙ uint64-put_uint64 n hn)

mac_fields-injective :
    (fs gs : List Bytes) → All Fits fs → All Fits gs → mac_fields fs ≡ mac_fields gs → fs ≡ gs
unfolding mac_fields put_uint64
mac_fields-injective [] [] hf hg e = refl
mac_fields-injective [] (g ∷ gs) hf hg e = cc
mac_fields-injective (f ∷ fs) [] hf hg e = cc
mac_fields-injective (f ∷ fs) (g ∷ gs) hf hg e =
    let (header, body) = append-split (put_uint64 (length f)) (put_uint64 (length g)) refl e in
    let same = put_uint64-injective (length f) (length g) hf.0 hg.0 header in
    let (here, rest) = append-split f g same body in
    cc (here, mac_fields-injective fs gs hf.1 hg.1 rest)

-- The bytes that `mac` hashes determine the domain and every field with its place: two inputs agree
-- only if the domains, which have no NUL byte, and the lists of fields do, where the fields' lengths
-- are Go ints. Fields of other lengths or of another number never join to the same bytes.
pub mac_input-injective :
    (d d' : Bytes) (fs gs : List Bytes)
    → All (λ b. b ≢ 0) d
    → All (λ b. b ≢ 0) d'
    → All Fits fs
    → All Fits gs
    → mac_input d fs ≡ mac_input d' gs
    → (d ≡ d') × (fs ≡ gs)
unfolding mac_input
mac_input-injective d d' fs gs hd hd' hf hg e =
    let parts : some (d, mac_fields fs) ≡ some (d', mac_fields gs) =
      sym (cut-append 0 d (mac_fields fs) hd)
      ∙ (ap (cut 0) e ∙ cut-append 0 d' (mac_fields gs) hd') in
    let same : mac_fields fs ≡ mac_fields gs = cc parts in
    (cc parts, mac_fields-injective fs gs hf hg same)
