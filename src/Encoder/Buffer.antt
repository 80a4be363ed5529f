-- ===== src/Encoder/Buffer.antt =====
-- The packer's memory, a byte at each address, and what a read sees of a write.
use dd_trace_py.Base.{
  ℕ, zero, suc, ◌+◌, ◌≤◌, ◌≡◌, refl, arith, List, [], ◌∷◌, ◌++◌, if◌then◌else◌, nat_beq, length, ap,
}

abbrev pub Memory : Type 0
Memory = ℕ → ℕ

abbrev pub poke : ℕ → ℕ → Memory → Memory
poke p b m i = if nat_beq i p then b else m i

-- the bytes are written from the address `p` on
unfoldable pub write : ℕ → List ℕ → Memory → Memory
write p [] m = m
write p (b ∷ bs) m = write (p + 1) bs (poke p b m)

-- the `n` bytes from the address `p` on
unfoldable pub read : ℕ → ℕ → Memory → List ℕ
read p zero m = []
read p (suc n) m = m p ∷ read (p + 1) n m

write-below : (p i : ℕ) (bs : List ℕ) (m : Memory) → suc i ≤ p → write p bs m i ≡ m i
unfolding write
write-below p i [] m h = refl
write-below p i (b ∷ bs) m h = ground (arith, write-below (p + 1) i bs (poke p b m))

write-above : (p i : ℕ) (bs : List ℕ) (m : Memory) → p + length bs ≤ i → write p bs m i ≡ m i
unfolding write
write-above p i [] m h = refl
write-above p i (b ∷ bs) m h = ground (arith, write-above (p + 1) i bs (poke p b m))

pub read-write : (p : ℕ) (bs : List ℕ) (m : Memory) → read p (length bs) (write p bs m) ≡ bs
unfolding write read
read-write p [] m = refl
read-write p (b ∷ bs) m =
    ground (arith, write-below (p + 1) p bs (poke p b m), read-write (p + 1) bs (poke p b m))

-- a read below or above what is written
pub read-write_below :
    (q n p : ℕ) (bs : List ℕ) (m : Memory) → q + n ≤ p → read q n (write p bs m) ≡ read q n m
unfolding read
read-write_below q zero p bs m h = refl
read-write_below q (suc n) p bs m h =
    ground (arith, write-below p q bs m, read-write_below (q + 1) n p bs m)

pub read-write_above :
    (q n p : ℕ) (bs : List ℕ) (m : Memory)
    → p + length bs ≤ q
    → read q n (write p bs m) ≡ read q n m
unfolding read
read-write_above q zero p bs m h = refl
read-write_above q (suc n) p bs m h =
    ground (arith, write-above p q bs m, read-write_above (q + 1) n p bs m)

pub read-add : (p n k : ℕ) (m : Memory) → read p (n + k) m ≡ read p n m ++ read (p + n) k m
unfolding read
read-add p zero k m = ground arith
read-add p (suc n) k m =
    let e : suc n + k ≡ suc (n + k) = omega arith in
    let f : p + suc n ≡ p + 1 + n = omega arith in
    rw (e, f) (ap (λ (l : List ℕ). m p ∷ l) (read-add (p + 1) n k m))
