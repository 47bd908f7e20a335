-- ===== src/Channels/Name/Sound.antt =====
-- What a channel's name that `isChannel` admits looks like.
use k_mqttd.Base.{
  ℕ, zero, suc, ◌+◌, ◌-◌, ◌≤◌, ◌<◌, ◌≡◌, ◌≢◌, refl, ap, ◌∙◌, sym, Bool, true, false, some, List, [],
  ◌∷◌, ◌==◌, length, get_elem?, arith, Bool-cases, Option-cases, inl, inr,
}
use k_mqttd.Text.{index_of, trim}
use k_mqttd.Channels.Name.{has_double_slash, byte_at, hash_fits, is_channel}

has_double_slash_lem :
    (s : List ℕ) (i : ℕ)
    → has_double_slash s ≡ false
    → get_elem? s i ≡ some b'/'
    → get_elem? s (suc i) ≢ some b'/'
unfolding has_double_slash
has_double_slash_lem [] i h here next = absurd (cc here)
has_double_slash_lem (c ∷ []) i h here next = absurd (cc next)
has_double_slash_lem (c ∷ d ∷ s) zero h here next = ground arith
has_double_slash_lem (c ∷ d ∷ s) (suc i) h here next =
    has_double_slash_lem (d ∷ s) i (ground arith) here next

index_of_first :
    (p : ℕ → Bool) (s : List ℕ) (i c : ℕ)
    → get_elem? s i ≡ some c
    → p c ≡ true
    → (j : ℕ) × (index_of p s ≡ some j) × (j ≤ i)
index_of_first p [] i c here hit = absurd (cc here)
index_of_first p (d ∷ s) zero c here hit = (0, ground arith, omega arith)
index_of_first p (d ∷ s) (suc i) c here hit =
    let (j, e, before) = index_of_first p s i c here hit in
    elim (Bool-cases (p d)) [
      | inl now ↦ (0, rw (now, index_of) refl, omega arith)
      | inr later ↦ (suc j, rw (later, index_of, e) refl, omega arith)
    ]

get_elem?-bound : (s : List ℕ) (i c : ℕ) → get_elem? s i ≡ some c → i < length s
get_elem?-bound [] i c e = absurd (cc e)
get_elem?-bound (d ∷ s) zero c e = omega arith
get_elem?-bound (d ∷ s) (suc i) c e = omega (arith, get_elem?-bound s i c e)

byte_at-slash : (s : List ℕ) (i : ℕ) → byte_at s i ≡ b'/' → get_elem? s i ≡ some b'/'
byte_at-slash s i e = elim (Option-cases (get_elem? s i)) [
  | inl gone ↦ absurd (let zero_byte : byte_at s i ≡ 0 = rw (gone, byte_at) refl in omega arith)
  | inr (c, found) ↦ found ∙ ap some (rw (found, byte_at) at e)
]

hash_fits_lem :
    (s : List ℕ) (i : ℕ)
    → hash_fits s ≡ true
    → get_elem? s i ≡ some b'#'
    → (i + 1 ≡ length s) × (1 ≤ i → get_elem? s (i - 1) ≡ some b'/')
unfolding hash_fits
hash_fits_lem s i fits here =
    let bound = get_elem?-bound s i b'#' here in
    let (j, first, before) = index_of_first (λ c. c == b'#') s i b'#' here (ground arith) in
    let tests = rw (first, hash_fits) at fits in
    let last : j ≡ i = ground arith in
    (ground arith, λ inner. byte_at-slash s (i - 1) (rw (sym last) (ground arith)))

-- A channel's name that `isChannel` admits: it has at most 65535 bytes and no two slashes beside
-- each other; without the white space at its ends it is not empty, and in what is left each `#` is
-- the last byte and follows a slash, if it follows anything.
pub is_channel_lem :
    (channel : List ℕ)
    → is_channel channel ≡ true
    → (length channel ≤ 0xffff)
      × ((i : ℕ) → get_elem? channel i ≡ some b'/' → get_elem? channel (suc i) ≢ some b'/')
      × (1 ≤ length (trim channel))
      × ((i : ℕ)
          → get_elem? (trim channel) i ≡ some b'#'
          → (i + 1 ≡ length (trim channel))
            × (1 ≤ i → get_elem? (trim channel) (i - 1) ≡ some b'/'))
unfolding is_channel
is_channel_lem channel fits = (
  ground arith,
  λ i. has_double_slash_lem channel i (ground arith),
  ground arith,
  λ i. hash_fits_lem (trim channel) i (ground arith),
)
