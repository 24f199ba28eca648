-- ===== src/Decoder/Hash.antt =====
-- pkg/decoder/hash.go, over the digests of the libraries: xxHash64 with a seed, and BLAKE2b of 16
-- and of 32 bytes. Bytes are numbers.
use substrate_rpc_proxy.Prelude.{
  ℕ, zero, suc, ◌+◌, ◌*◌, ◌/◌, ◌≡◌, refl, sym, ap, String, List, [], ◌∷◌, ◌++◌, length, set,
  set-append_here, str_eq, if◌then◌else◌, ◌==◌, length-append, arith,
}

abbrev pub zeros : ℕ → List ℕ
zeros zero = []
zeros (suc n) = 0 ∷ zeros n

-- copy(dst[i:], src)
unfoldable pub copy_at : List ℕ → ℕ → List ℕ → List ℕ
copy_at dst i [] = dst
copy_at dst i (b ∷ bs) = copy_at (set dst i b) (suc i) bs

pub record Digests : Type 0 where
  pub xx_hash64 : ℕ → List ℕ → List ℕ
  pub blake2b_16 : List ℕ → List ℕ
  pub blake2b_32 : List ℕ → List ℕ

module _ (digests : Digests) where
  open digests use {xx_hash64, blake2b_16, blake2b_32}

  -- The loop over `n` more seeds.
  unfoldable pub fill : List ℕ → ℕ → ℕ → List ℕ → List ℕ
  unfolding copy_at
  fill data' zero seed hash = hash
  fill data' (suc n) seed hash =
      fill data' n (suc seed) (copy_at hash (seed * 8) (xx_hash64 seed data'))

  unfoldable pub twox_hash : List ℕ → ℕ → List ℕ
  unfolding fill
  twox_hash data' bit_len = fill data' (bit_len / 64) 0 (zeros (bit_len / 8))

  unfoldable pub blake2_hash : List ℕ → ℕ → List ℕ
  blake2_hash data' bit_len = if bit_len == 256 then blake2b_32 data' else blake2b_16 data'

  unfoldable pub do_hash : List ℕ → String → List ℕ
  unfolding twox_hash blake2_hash
  do_hash data' hasher =
      if str_eq hasher "Blake2_128"
      then blake2_hash data' 128
      else (if str_eq hasher "Blake2_256"
          then blake2_hash data' 256
          else (if str_eq hasher "Twox128"
              then twox_hash data' 128
              else (if str_eq hasher "Twox256"
                  then twox_hash data' 256
                  else (if str_eq hasher "Identity"
                      then data'
                      else (if str_eq hasher "Blake2_128Concat"
                          then blake2_hash data' 128 ++ data'
                          else twox_hash data' 64 ++ data')))))

  -- The digests of `n` seeds from `seed` on, one after the other.
  abbrev pub digests_from : ℕ → ℕ → List ℕ → List ℕ
  digests_from zero seed data' = []
  digests_from (suc n) seed data' = xx_hash64 seed data' ++ digests_from n (suc seed) data'

append_assoc : (xs ys zs : List ℕ) → (xs ++ ys) ++ zs ≡ xs ++ (ys ++ zs)
append_assoc [] ys zs = refl
append_assoc (x ∷ xs) ys zs = ap (λ r. x ∷ r) (append_assoc xs ys zs)

zeros-add : (a b : ℕ) → zeros (a + b) ≡ zeros a ++ zeros b
zeros-add zero b = let same : 0 + b ≡ b = omega arith in rw same refl
zeros-add (suc a) b =
    let same : suc a + b ≡ suc (a + b) = omega arith in rw (same, zeros-add a b) refl

-- A copy over as many bytes replaces them.
copy_at-append :
    (pre old suf new : List ℕ)
    → length old ≡ length new
    → copy_at (pre ++ (old ++ suf)) (length pre) new ≡ pre ++ (new ++ suf)
unfolding copy_at
copy_at-append pre [] suf [] h = refl
copy_at-append pre [] suf (b ∷ bs) h = absurd (omega arith)
copy_at-append pre (o ∷ old) suf [] h = absurd (omega arith)
copy_at-append pre (o ∷ old) suf (b ∷ bs) h =
    let shorter : length old ≡ length bs = omega arith in
    let at_end : suc (length pre) ≡ length (pre ++ b ∷ []) =
      omega (arith, length-append pre (b ∷ [])) in
    rw
      (
        set-append_here pre (old ++ suf) o b,
        at_end,
        sym (append_assoc pre (b ∷ []) (old ++ suf)),
        copy_at-append (pre ++ b ∷ []) old suf bs shorter,
        append_assoc pre (b ∷ []) (bs ++ suf),
      )
      refl

length-zeros : (n : ℕ) → length (zeros n) ≡ n
length-zeros zero = refl
length-zeros (suc n) = omega (arith, length-zeros n)

module _ (digests : Digests)
    (eight : (seed : ℕ) (data' : List ℕ) → length (digests.xx_hash64 seed data') ≡ 8) where
  open digests use {xx_hash64}

  fill-zeros :
      (data' : List ℕ) (n seed : ℕ) (pre : List ℕ)
      → length pre ≡ seed * 8
      → fill digests data' n seed (pre ++ zeros (n * 8)) ≡ pre ++ digests_from digests n seed data'
  unfolding fill
  fill-zeros data' zero seed pre h = refl
  fill-zeros data' (suc n) seed pre h =
      let d = xx_hash64 seed data' in
      let more : suc n * 8 ≡ 8 + n * 8 = omega arith in
      let long : length (pre ++ d) ≡ suc seed * 8 =
        omega (arith, length-append pre d, eight seed data') in
      let same : length (zeros 8) ≡ length d = omega (arith, length-zeros 8, eight seed data') in
      rw
        (
          more,
          zeros-add 8 (n * 8),
          sym h,
          copy_at-append pre (zeros 8) (zeros (n * 8)) d same,
          sym (append_assoc pre d (zeros (n * 8))),
          fill-zeros data' n (suc seed) (pre ++ d) long,
          append_assoc pre d (digests_from digests n (suc seed) data'),
        )
        refl

  -- With digests of 8 bytes, the hash of 64 n bits is the digests of the seeds 0 to n - 1, one after
  -- the other.
  pub twox_hash-digests :
      (data' : List ℕ) (n : ℕ) → twox_hash digests data' (64 * n) ≡ digests_from digests n 0 data'
  unfolding twox_hash
  twox_hash-digests data' n =
      let seeds : 64 * n / 64 ≡ n = omega arith in
      let bytes : 64 * n / 8 ≡ n * 8 = omega arith in
      rw (seeds, bytes) (fill-zeros data' n 0 [] refl)
