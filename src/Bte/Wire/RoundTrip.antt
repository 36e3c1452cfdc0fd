-- ===== src/Bte/Wire/RoundTrip.antt =====
-- A ciphertext survives its encoding (bte/btd-impl-main/be/cluster.go).
use mathlib.Core.List.{append_assoc, append-nil}
use bloc.Prelude.{
  ◌%◌, ◌^◌, ◌<◌, ◌≡◌, refl, subst, ◌∙◌, true, false, some, List, [], ◌∷◌, ◌++◌, arith, ltb, leb,
  length, length-append, take-append, drop-append, All,
}
use bloc.Prelude.Bytes.{Bytes}
use bloc.Mempool.Calldata.{of_bytes, fill_bytes}
use bloc.Mempool.Calldata.RoundTrip.{of_bytes-fill, length-fill}
use bloc.Bte.{Capsule, Ciphertext, PublicParams, validate_ciphertext}
use bloc.Bte.Wire.{
  Kind, gt, g1, scalar, Elements, library_version, write_bytes, read_bytes, part_kinds, parts,
  capsule_of, write_elements, read_elements, marshal_ct, unmarshal_ct, marshal_ciphertext,
  unmarshal_ciphertext,
}

read-write_bytes :
    (d rest : Bytes) → length d < 2 ^ 64 → read_bytes (write_bytes d ++ rest) ≡ some (d, rest)
unfolding read_bytes write_bytes
read-write_bytes d rest h =
    let len = length d % 2 ^ 64 in
    let whole : (fill_bytes 8 len ++ d) ++ rest ≡ fill_bytes 8 len ++ (d ++ rest) =
      append_assoc (fill_bytes 8 len) d rest in
    let front = take-append 8 (fill_bytes 8 len) (d ++ rest) (length-fill 8 len) in
    let back = drop-append 8 (fill_bytes 8 len) (d ++ rest) (length-fill 8 len) in
    let size : of_bytes 0 (fill_bytes 8 len) ≡ length d =
      of_bytes-fill 8 len (omega arith) ∙ omega (arith, h) in
    let long : ltb (length (fill_bytes 8 len ++ (d ++ rest))) 8 ≡ false =
      ground (arith, length-append (fill_bytes 8 len) (d ++ rest), length-fill 8 len) in
    let room : ltb (length (d ++ rest)) (length d) ≡ false = ground (arith, length-append d rest) in
    rw
      (
        whole,
        long,
        front,
        back,
        size,
        room,
        take-append (length d) d rest refl,
        drop-append (length d) d rest refl,
      )
      refl

module _ {El : Type 0} (els : Elements El) where
  -- A part of a kind that is read back from a short encoding.
  abbrev pub Readable : Kind × El → Type 0
  Readable x =
      (e : Bytes) × (els.marshal (x.1) ≡ some e)
      × (els.unmarshal (x.0) e ≡ some (x.1))
      × (length e < 2 ^ 64)

  abbrev kinds_of : List (Kind × El) → List Kind
  kinds_of [] = []
  kinds_of (x ∷ xs) = x.0 ∷ kinds_of xs

  abbrev elements_of : List (Kind × El) → List El
  elements_of [] = []
  elements_of (x ∷ xs) = x.1 ∷ elements_of xs

  read-write_elements :
      (xs : List (Kind × El))
      → All Readable xs
      → (bs : Bytes) × (write_elements els (elements_of xs) ≡ some bs)
        × ((rest : Bytes)
            → read_elements els (kinds_of xs) (bs ++ rest) ≡ some (elements_of xs, rest))
  unfolding write_elements read_elements
  read-write_elements [] h = ([], refl, λ rest. refl)
  read-write_elements (x ∷ xs) h =
      let (e, m, u, short) = h.0 in
      let (bs, w, r) = read-write_elements xs h.1 in
      (
        write_bytes e ++ bs,
        rw (m, w) refl,
        λ rest.
            rw
              (
                append_assoc (write_bytes e) bs rest,
                read-write_bytes e (bs ++ rest) short,
                u,
                r rest,
              )
              refl,
      )

  -- The parts of a capsule with their kinds.
  abbrev pub typed_parts : Capsule El → List (Kind × El)
  typed_parts c =
      (gt, c.gamma)
      ∷ (g1, c.kp)
      ∷ (g1, c.a)
      ∷ (g1, c.b)
      ∷ (g1, c.ap)
      ∷ (g1, c.bp)
      ∷ (g1, c.yp)
      ∷ (scalar, c.k_hat)
      ∷ (scalar, c.u_hat)
      ∷ []

  unmarshal-marshal_ct :
      (c : Capsule El)
      → c.i < 2 ^ 63
      → All Readable (typed_parts c)
      → (b : Bytes) × (marshal_ct els c ≡ some b) × (unmarshal_ct els b ≡ some c)
  unfolding marshal_ct unmarshal_ct capsule_of
  unmarshal-marshal_ct c h p =
      let (bs, w, r) = read-write_elements (typed_parts c) p in
      let i = c.i % 2 ^ 64 in
      let front = take-append 8 (fill_bytes 8 i) bs (length-fill 8 i) in
      let back = drop-append 8 (fill_bytes 8 i) bs (length-fill 8 i) in
      let index : of_bytes 0 (fill_bytes 8 i) ≡ c.i =
        of_bytes-fill 8 i (omega arith) ∙ omega (arith, h) in
      let long : ltb (length (fill_bytes 8 i ++ bs)) 8 ≡ false =
        ground (arith, length-append (fill_bytes 8 i) bs, length-fill 8 i) in
      let small : leb (2 ^ 63) c.i ≡ false = ground (arith, h) in
      let all : read_elements els part_kinds bs ≡ some (parts c, []) =
        subst (λ x. read_elements els part_kinds x ≡ some (parts c, [])) (append-nil bs) (r []) in
      (fill_bytes 8 i ++ bs, rw w refl, rw (long, front, back, index, small, all) refl)

  -- A valid ciphertext whose parts are read back from their own encodings, with an index below 2 ^ 63
  -- and fewer than 2 ^ 64 bytes in the capsule and in the payload, is encoded, and decoded as itself.
  pub unmarshal-marshal_ciphertext :
      (params : PublicParams) (c : Ciphertext El)
      → validate_ciphertext params c ≡ true
      → c.capsule.i < 2 ^ 63
      → All Readable (typed_parts c.capsule)
      → ((b : Bytes) → marshal_ct els c.capsule ≡ some b → length b < 2 ^ 64)
      → length c.encrypted_tx < 2 ^ 64
      → (b : Bytes) × (marshal_ciphertext els c ≡ some b)
        × (unmarshal_ciphertext els params b ≡ some c)
  unfolding marshal_ciphertext unmarshal_ciphertext
  unmarshal-marshal_ciphertext params c v h p short_capsule short =
      let (b, m, u) = unmarshal-marshal_ct c.capsule h p in
      let first = read-write_bytes b (write_bytes c.encrypted_tx) (short_capsule b m) in
      let second : read_bytes (write_bytes c.encrypted_tx) ≡ some (c.encrypted_tx, []) =
        subst (λ x. read_bytes x ≡ some (c.encrypted_tx, []))
          (append-nil (write_bytes c.encrypted_tx)) (read-write_bytes c.encrypted_tx [] short) in
      let long : ltb (length (library_version ++ (write_bytes b ++ write_bytes c.encrypted_tx))) 9
          ≡ false =
        ground arith in
      (
        library_version ++ (write_bytes b ++ write_bytes c.encrypted_tx),
        rw m refl,
        rw (long, first, u, second, v) refl,
      )
