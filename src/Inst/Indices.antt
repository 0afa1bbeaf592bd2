-- ===== src/Inst/Indices.antt =====
-- Lemmas on the pointers and the memory argument of the classes of src/inst_internal.cpp.
use wasm_instrument.Prelude.{
  ℕ, zero, suc, ◌/◌, ◌^◌, ◌<◌, ◌≡◌, refl, ap, bit_and, bit_or, true, false, List, [], ◌++◌, ltb,
  ◌==◌, ◌&&◌, some, arith, append_assoc,
}
use wasm_instrument.Prelude.Bits.{every_below, every_below_sound}
use wasm_instrument.Prelude.Result.{Result, ok}
use wasm_instrument.Leb.{encode_u32leb}
use wasm_instrument.Buffer.{Parser, pure, lift, ◌>>=◌, read_u32leb}
use wasm_instrument.Buffer.Reads.{
  Reads, Reads-pure, Reads-bind, Reads-then, Reads-lift, read_u32leb-Reads,
}
use wasm_instrument.Ir.{WasmModule, Node, Ptr}
use wasm_instrument.Ir.Access.{
  index_of, elem_ptr-index_of, get_list_elem, get_list_idx, get_deque_idx, get_memory,
  get_memory_idx,
}
use wasm_instrument.Inst.Classes.{read_memarg, write_memarg}
use wasm_instrument.Inst.Encodable.{Found, U32}

-- A pointer is written as the index at which it is found again.
module _ {ℓ} {A : Type ℓ} where
  pub found-idx :
      (ns : List (Node A)) (p : Ptr) (i : ℕ) → index_of ns p ≡ some i → get_list_idx ns p ≡ ok i
  unfolding get_list_idx
  found-idx ns p i h = rw h

  pub found-elem :
      (ns : List (Node A)) (p : Ptr) (i : ℕ) → index_of ns p ≡ some i → get_list_elem ns i ≡ ok p
  unfolding get_list_elem
  found-elem ns p i h = rw (elem_ptr-index_of ns p i h)

  pub found-deque :
      (ns : List (Node A)) (p : Ptr) (i : ℕ) → index_of ns p ≡ some i → get_deque_idx ns p ≡ i
  unfolding get_deque_idx
  found-deque ns p i h = rw h

-- An index and what it stands for, then the rest of the constructor.
pub index-then {ℓ} :
    {B : Type ℓ} (get : ℕ → Result Ptr) (f : Ptr → Parser B) (i : ℕ) (ys : List ℕ) {p : Ptr} {b : B}
    → U32 i
    → get i ≡ ok p
    → Reads (f p) ys b
    → Reads (read_u32leb >>= λ j. lift (get j) >>= f) (encode_u32leb i ++ ys) b
index-then get f i ys small e next =
    Reads-bind read_u32leb (λ j. lift (get j) >>= f) (encode_u32leb i) ys
      (read_u32leb-Reads i small) (Reads-bind (lift (get i)) f [] ys (Reads-lift (get i) e) next)

pub index-last {ℓ} :
    {B : Type ℓ} (get : ℕ → Result Ptr) (f : Ptr → B) (i : ℕ) {p : Ptr}
    → U32 i
    → get i ≡ ok p
    → Reads (read_u32leb >>= λ j. lift (get j) >>= λ q. pure (f q)) (encode_u32leb i) (f p)
index-last get f i {p} small e =
    Reads-then read_u32leb (λ j. lift (get j) >>= λ q. pure (f q)) (encode_u32leb i)
      (read_u32leb-Reads i small)
      (Reads-bind (lift (get i)) (λ q. pure (f q)) [] [] (Reads-lift (get i) e) (Reads-pure (f p)))

-- Two indices.
pub index-two {ℓ} :
    {B : Type ℓ} (get get' : ℕ → Result Ptr) (f : Ptr → Ptr → B) (i j : ℕ) {p q : Ptr}
    → U32 i
    → get i ≡ ok p
    → U32 j
    → get' j ≡ ok q
    → Reads
        (read_u32leb >>= λ a.
          lift (get a) >>= λ x. read_u32leb >>= λ b. lift (get' b) >>= λ y. pure (f x y))
        (encode_u32leb i ++ encode_u32leb j)
        (f p q)
index-two get get' f i j {p} small e small' e' =
    index-then get (λ x. read_u32leb >>= λ b. lift (get' b) >>= λ y. pure (f x y)) i
      (encode_u32leb j) small e (index-last get' (f p) j small' e')

-- Bit 6 of the alignment is free.
align_table :
    every_below 64 (λ a.
      ((bit_and (a / 2 ^ 6) 1 == 0) && (bit_and a 0x3f == a))
      && ((bit_and (bit_or a 0x40 / 2 ^ 6) 1 == 1)
          && ((bit_and (bit_or a 0x40) 0x3f == a) && ltb (bit_or a 0x40) (2 ^ 32))))
    ≡ true
unfolding every_below
align_table = refl

flagged :
    (a : ℕ)
    → a < 64
    → (bit_and (bit_or a 0x40 / 2 ^ 6) 1 == 1 ≡ true)
      × (bit_and (bit_or a 0x40) 0x3f ≡ a)
      × (bit_or a 0x40 < 2 ^ 32)
flagged a h = let known = every_below_sound 64 _ a align_table h in ground (arith, known)

unflagged :
    (a : ℕ) → a < 64 → (bit_and (a / 2 ^ 6) 1 == 1 ≡ false) × (bit_and a 0x3f ≡ a) × (a < 2 ^ 32)
unflagged a h = let known = every_below_sound 64 _ a align_table h in ground (arith, known)

nonzero : (i : ℕ) → suc i == 0 ≡ false
nonzero i = ground arith

-- Behind the alignment and the memory index.
offset-Reads :
    (m : WasmModule) (align o : ℕ) (i : ℕ) {a : ℕ} {p : Ptr}
    → U32 o
    → get_list_elem m.mems i ≡ ok p
    → bit_and align 0x3f ≡ a
    → Reads {A = ℕ × ℕ × Ptr}
        (lift (get_list_elem m.mems i) >>= λ mem.
          read_u32leb >>= λ offset. pure (bit_and align 0x3f, offset, mem))
        (encode_u32leb o)
        (a, o, p)
offset-Reads m align o i {a} {p} small e mask =
    Reads-bind (lift (get_list_elem m.mems i))
      (λ mem. read_u32leb >>= λ offset. pure (bit_and align 0x3f, offset, mem)) [] (encode_u32leb o)
      (Reads-lift (get_list_elem m.mems i) e)
      (Reads-then read_u32leb (λ offset. pure (bit_and align 0x3f, offset, p)) (encode_u32leb o)
        (read_u32leb-Reads o small) (rw mask (Reads-pure (a, o, p))))

-- The alignment, the memory and the offset are read back.
pub memarg-RoundTrips :
    (m : WasmModule) (a o : ℕ) (p : Ptr)
    → a < 64
    → U32 o
    → Found m.mems p
    → (bytes : List ℕ) × (write_memarg m a o p ≡ ok bytes) × Reads (read_memarg m) bytes (a, o, p)
unfolding read_memarg write_memarg get_memory get_memory_idx
memarg-RoundTrips m a o p low small (zero, h, fits) =
    let (flag, mask, wide) = unflagged a low in
    (
      encode_u32leb a ++ encode_u32leb o,
      rw (found-idx m.mems p 0 h) refl,
      Reads-bind read_u32leb _ (encode_u32leb a) (encode_u32leb o) (read_u32leb-Reads a wide)
          (rw flag (offset-Reads m a o 0 small (found-elem m.mems p 0 h) mask)),
    )
memarg-RoundTrips m a o p low small (suc i, h, fits) =
    let (flag, mask, wide) = flagged a low in
    let read =
      Reads-bind read_u32leb _ (encode_u32leb (bit_or a 0x40))
        (encode_u32leb (suc i) ++ encode_u32leb o) (read_u32leb-Reads (bit_or a 0x40) wide)
        (rw flag (
          Reads-bind read_u32leb _ (encode_u32leb (suc i)) (encode_u32leb o)
            (read_u32leb-Reads (suc i) fits)
            (offset-Reads m (bit_or a 0x40) o (suc i) small (found-elem m.mems p (suc i) h)
              mask))) in
    (
      encode_u32leb (bit_or a 0x40) ++ (encode_u32leb (suc i) ++ encode_u32leb o),
      rw (found-idx m.mems p (suc i) h, nonzero i)
          (ap ok (
            append_assoc (encode_u32leb (bit_or a 0x40)) (encode_u32leb (suc i))
              (encode_u32leb o))),
      read,
    )
