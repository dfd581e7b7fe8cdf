-- ===== src/Examples/Codes.antt =====
-- A codec: digests of 64 bytes, and serialisers that write the length of a text before the text.
-- A block that has entries is one that its serialiser refuses.
use Prim.Native.Nat.{ℕ, zero, suc}
use mathlib.Core.Path.{◌≡◌, refl, sym, ap, ◌∙◌}
use mathlib.Core.Option.{Option, none, some, some-injective}
use mathlib.Core.List.{List, [], ◌∷◌, ◌++◌}
use myriadmesh_server.Base.{length, take, drop, replicate, arith, length-take, length-append}
use myriadmesh_server.Base.Bytes.{Bytes}
use myriadmesh_server.Ledger.Entry.{LedgerEntry}
use myriadmesh_server.Ledger.Chain.{BlockHeader, Block, ValidatorSignature}
use myriadmesh_server.Ledger.Codec.{Codec, HashLength, ReadsBack}
use myriadmesh_server.Ledger.Merkle.Binding.{append-inj}
use myriadmesh_server.Ledger.Block.History.{HeadersDiffer}

abbrev pub toy_hash : Bytes → Bytes
toy_hash x = take 64 (x ++ replicate 64 0)

pub toy_hash-HashLength : HashLength toy_hash
toy_hash-HashLength x =
    omega (arith, length-take 64 (x ++ replicate 64 0), length-append {0} x (replicate 64 0))

abbrev put : Bytes → Bytes → Bytes
put x rest = length x ∷ x ++ rest

put-inj : (x y r s : Bytes) → put x r ≡ put y s → (x ≡ y) × (r ≡ s)
put-inj x y r s e = append-inj x r y s (cc e) (cc e)

abbrev put_header : BlockHeader → Bytes → Bytes
put_header h rest =
    h.version
    ∷ h.height
    ∷ h.timestamp
    ∷ put h.previous_hash (put h.merkle_root (put h.creator (put h.creator_signature rest)))

put_header-inj : (g h : BlockHeader) → put_header g [] ≡ put_header h [] → g ≡ h
put_header-inj g h e =
    let creators = λ (x : BlockHeader). put x.creator (put x.creator_signature []) in
    let roots = λ (x : BlockHeader). put x.merkle_root (creators x) in
    let p1 = put-inj g.previous_hash h.previous_hash (roots g) (roots h) (cc e) in
    let p2 = put-inj g.merkle_root h.merkle_root (creators g) (creators h) p1.1 in
    let p3 =
      put-inj g.creator h.creator (put g.creator_signature []) (put h.creator_signature []) p2.1 in
    let p4 = put-inj g.creator_signature h.creator_signature [] [] p3.1 in
    cc (e, p1.0, p2.0, p3.0, p4.0)

abbrev put_signatures : List ValidatorSignature → Bytes
put_signatures [] = []
put_signatures (s ∷ ss) = put s.validator (put s.signature (put_signatures ss))

abbrev put_block : Block → Option Bytes
put_block b = elim b.entries [
  | [] ↦
      some (
        put_header b.header (length b.validator_signatures ∷ put_signatures b.validator_signatures))
  | e ∷ es ↦ none
]

abbrev chunk : Bytes → Bytes × Bytes
chunk [] = ([], [])
chunk (k ∷ rest) = (take k rest, drop k rest)

take-length : (x r : Bytes) → (take (length x) (x ++ r) ≡ x) × (drop (length x) (x ++ r) ≡ r)
take-length [] r = (refl, refl)
take-length (a ∷ x) r = (ap (◌∷◌ a) (take-length x r).0, (take-length x r).1)

chunk-put : (x r : Bytes) → chunk (put x r) ≡ (x, r)
chunk-put x r = cc ((take-length x r).0, (take-length x r).1)

abbrev get_signatures : ℕ → Bytes → List ValidatorSignature
get_signatures zero bytes = []
get_signatures (suc n) bytes =
    let v = chunk bytes in
    let s = chunk v.1 in record { validator = v.0; signature = s.0 } ∷ get_signatures n s.1

get_signatures-put_signatures :
    (ss : List ValidatorSignature) → get_signatures (length ss) (put_signatures ss) ≡ ss
get_signatures-put_signatures [] = refl
get_signatures-put_signatures (s ∷ ss) =
    let a = take-length s.validator (put s.signature (put_signatures ss)) in
    let b = take-length s.signature (put_signatures ss) in
    cc (a.0, a.1, b.0, b.1, get_signatures-put_signatures ss)

unfoldable pub with_signatures : BlockHeader → Bytes → Option Block
with_signatures h [] = none
with_signatures h (count ∷ rest) =
    some (record { header = h; entries = []; validator_signatures = get_signatures count rest })

-- a text read back, and what follows it
unfoldable pub chunk_then : Bytes → (Bytes → Bytes → Option Block) → Option Block
chunk_then [] k = none
chunk_then (n ∷ rest) k = k (take n rest) (drop n rest)

chunk_then-put : (x r : Bytes) (k : Bytes → Bytes → Option Block) → chunk_then (put x r) k ≡ k x r
unfolding chunk_then
chunk_then-put x r k = cc ((take-length x r).0, (take-length x r).1)

abbrev from_signature : ℕ → ℕ → ℕ → Bytes → Bytes → Bytes → Bytes → Bytes → Option Block
unfolding with_signatures
from_signature version height timestamp p m c s rest =
    with_signatures
      (record {
        version = version;
        height = height;
        timestamp = timestamp;
        previous_hash = p;
        merkle_root = m;
        creator = c;
        creator_signature = s;
      })
      rest

abbrev from_creator : ℕ → ℕ → ℕ → Bytes → Bytes → Bytes → Bytes → Option Block
from_creator v h t p m c rest = chunk_then rest (from_signature v h t p m c)

abbrev from_root : ℕ → ℕ → ℕ → Bytes → Bytes → Bytes → Option Block
from_root v h t p m rest = chunk_then rest (from_creator v h t p m)

abbrev from_previous : ℕ → ℕ → ℕ → Bytes → Bytes → Option Block
from_previous v h t p rest = chunk_then rest (from_root v h t p)

unfoldable pub get_block : Bytes → Option Block
unfolding chunk_then with_signatures
get_block (v ∷ h ∷ t ∷ bytes) = chunk_then bytes (from_previous v h t)
get_block _ = none

get_block-put_header :
    (h : BlockHeader) (ss : List ValidatorSignature)
    → get_block (put_header h (length ss ∷ put_signatures ss))
      ≡ some (record { header = h; entries = []; validator_signatures = ss })
unfolding get_block with_signatures
get_block-put_header h ss =
    let r4 = length ss ∷ put_signatures ss in
    let r3 = put h.creator_signature r4 in
    let r2 = put h.creator r3 in
    let r1 = put h.merkle_root r2 in
    let k1 = from_previous h.version h.height h.timestamp in
    let k2 = from_root h.version h.height h.timestamp h.previous_hash in
    let k3 = from_creator h.version h.height h.timestamp h.previous_hash h.merkle_root in
    let k4 =
      from_signature h.version h.height h.timestamp h.previous_hash h.merkle_root h.creator in
    chunk_then-put h.previous_hash r1 k1
    ∙ chunk_then-put h.merkle_root r2 k2
    ∙ chunk_then-put h.creator r3 k3
    ∙ chunk_then-put h.creator_signature r4 k4
    ∙ ap (λ l. some (record { header = h; entries = []; validator_signatures = l }))
        (get_signatures-put_signatures ss)

abbrev pub toy_codec : Codec
toy_codec = record {
  blake2b = toy_hash;
  entry_bytes = λ e. some (e.timestamp ∷ e.signature);
  header_bytes = λ h. some (put_header h []);
  block_bytes = put_block;
  block_of_bytes = get_block;
}

pub toy_codec-HeadersDiffer : HeadersDiffer toy_codec
toy_codec-HeadersDiffer g h bytes eg eh =
    put_header-inj g h (some-injective _ _ eg ∙ sym (some-injective _ _ eh))

read_back :
    (h : BlockHeader) (es : List LedgerEntry) (ss : List ValidatorSignature) (bytes : Bytes)
    → put_block (record { header = h; entries = es; validator_signatures = ss }) ≡ some bytes
    → get_block bytes ≡ some (record { header = h; entries = es; validator_signatures = ss })
read_back h [] ss bytes e = ap get_block (sym (some-injective _ _ e)) ∙ get_block-put_header h ss
read_back h (x ∷ es) ss bytes e = cc e

pub toy_codec-ReadsBack : ReadsBack toy_codec
toy_codec-ReadsBack b = read_back b.header b.entries b.validator_signatures
