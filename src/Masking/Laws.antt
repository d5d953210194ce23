-- ===== src/Masking/Laws.antt =====
-- What masking hides, and what it leaves alone.
use Prim.Native.String.{count}
use text.Mathlib.TextLemmas.{length-cons, length-append}
use ai_proxy.Common.{
  ℕ, zero, suc, ◌+◌, ◌-◌, ◌≤◌, ◌<◌, String, append, ◌≡◌, refl, ◌⊎◌, inl, inr, false, arith,
  if◌then◌else◌, leb, Bool-cases,
}
use ai_proxy.Json.{
  Json, null, bool, int, float, str, arr, obj, Elems, nil, cons, Fields, end, field,
}
use ai_proxy.Masking.{
  is_sensitive, take_chars, drop_chars, stars, mask_api_key, mask_sensitive_fields, mask_items,
  mask_fields,
}

count-stars : (n : ℕ) → count (stars n) ≡ n
unfolding stars
count-stars zero = refl
count-stars (suc n) = rw (length-cons, count-stars n)

count-take_chars : (n : ℕ) (s : String) → n ≤ count s → count (take_chars n s) ≡ n
unfolding take_chars
count-take_chars zero s h = refl
count-take_chars (suc n) String.[] h = absurd (omega arith)
count-take_chars (suc n) (String.◌∷◌ c s) h =
    rw (length-cons, count-take_chars n s (omega (arith, length-cons c s)))

count-drop_chars : (n : ℕ) (s : String) → n ≤ count s → count (drop_chars n s) + n ≡ count s
unfolding drop_chars
count-drop_chars zero s h = omega arith
count-drop_chars (suc n) String.[] h = absurd (omega arith)
count-drop_chars (suc n) (String.◌∷◌ c s) h =
    omega (arith, length-cons c s, count-drop_chars n s (omega (arith, length-cons c s)))

-- What a masked text looks like: three stars, or stars between three characters and three more.
abbrev pub IsMaskedText : String → Type 0
IsMaskedText t =
    (t ≡ "***")
    ⊎ ((a b : String) × (n : ℕ) × (t ≡ append a (append (stars n) b))
        × (count a ≡ 3)
        × (count b ≡ 3)
        × (0 < n))

mask_long :
    (s : String)
    → 6 < count s
    → (count (take_chars 3 s) ≡ 3) × (count (drop_chars (count s - 3) s) ≡ 3)
mask_long s h = (
  count-take_chars 3 s (omega arith),
  omega (arith, count-drop_chars (count s - 3) s (omega arith)),
)

pub mask_api_key-IsMaskedText : (s : String) → IsMaskedText (mask_api_key s)
unfolding mask_api_key
mask_api_key-IsMaskedText s = elim (Bool-cases (leb (count s) 6)) [
  | inl short ↦ rw short (inl refl)
  | inr long ↦ rw long (
      let (a, b) = mask_long s (ground arith) in
      inr (take_chars 3 s, drop_chars (count s - 3) s, count s - 6, refl, a, b, ground arith))
]

-- The mask of a key of more than six characters is as long as the key.
pub count-mask_api_key : (s : String) → 6 < count s → count (mask_api_key s) ≡ count s
unfolding mask_api_key
count-mask_api_key s h =
    let long : leb (count s) 6 ≡ false = ground arith in
    let (a, b) = mask_long s h in
    rw (long, length-append, length-append, count-stars) (omega (arith, a, b))

-- Every text that stands directly under a sensitive name is a masked one, at every depth.
mutual
  pub IsMasked : Json → Type 0
  IsMasked (arr vs) = AreMasked vs
  IsMasked (obj fs) = FieldsMasked fs
  IsMasked v = Unit

  pub AreMasked : Elems → Type 0
  AreMasked nil = Unit
  AreMasked (cons v vs) = IsMasked v × AreMasked vs

  pub FieldsMasked : Fields → Type 0
  FieldsMasked end = Unit
  FieldsMasked (field k (str s) fs) =
      (if is_sensitive k then IsMaskedText s else Unit) × FieldsMasked fs
  FieldsMasked (field k v fs) = IsMasked v × FieldsMasked fs

masked_text :
    (k s : String)
    → if is_sensitive k then IsMaskedText (if is_sensitive k then mask_api_key s else s) else Unit
masked_text k s = elim (Bool-cases (is_sensitive k)) [
  | inl secret ↦ rw secret (mask_api_key-IsMaskedText s)
  | inr plain ↦ rw plain tt
]

mutual
  unfolding mask_sensitive_fields IsMasked

  masked : (v : Json) → IsMasked (mask_sensitive_fields v)
  masked null = tt
  masked (bool b) = tt
  masked (int n) = tt
  masked (float x) = tt
  masked (str s) = tt
  masked (arr vs) = masked_items vs
  masked (obj fs) = masked_fields fs

  masked_items : (vs : Elems) → AreMasked (mask_items vs)
  masked_items nil = tt
  masked_items (cons v vs) = (masked v, masked_items vs)

  masked_fields : (fs : Fields) → FieldsMasked (mask_fields fs)
  masked_fields end = tt
  masked_fields (field k null fs) = (tt, masked_fields fs)
  masked_fields (field k (bool b) fs) = (tt, masked_fields fs)
  masked_fields (field k (int n) fs) = (tt, masked_fields fs)
  masked_fields (field k (float x) fs) = (tt, masked_fields fs)
  masked_fields (field k (str s) fs) = (masked_text k s, masked_fields fs)
  masked_fields (field k (arr vs) fs) = (masked_items vs, masked_fields fs)
  masked_fields (field k (obj gs) fs) = (masked_fields gs, masked_fields fs)

-- In a masked value every text that stands directly under a sensitive name is three stars, or
-- stars between three characters and three more, at every depth.
pub mask_sensitive_fields-IsMasked : (v : Json) → IsMasked (mask_sensitive_fields v)
mask_sensitive_fields-IsMasked v = masked v
