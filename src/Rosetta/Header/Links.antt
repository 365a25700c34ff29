-- ===== src/Rosetta/Header/Links.antt =====
-- The links of the blocks that are converted from a chain of headers.
use rosetta_ergo.Base.{
  ℤ, pos, negsuc, zero, suc, ◌≡◌, ◌≢◌, refl, arith, eq_ℤ, eq_ℤ_iff, inc64, dec64, InInt64,
  Bool-cases, inl, inr, List, [], ◌∷◌,
}
use rosetta_ergo.Sdk.{Block, BlockIdentifier}
use rosetta_ergo.Ergo.Types.{BlockHeader}
use rosetta_ergo.Ergo.Constants.{genesis_block_index}
use rosetta_ergo.Rosetta.Header.{header_to_rosetta_block}

dec64-inc64 : (z : ℤ) → InInt64 z → dec64 (inc64 z) ≡ z
dec64-inc64 (pos n) h = ground arith
dec64-inc64 (negsuc zero) h = refl
dec64-inc64 (negsuc (suc n)) h = ground arith

-- `c` is the header of the block on top of that of `p`.
pub record IsChild (p c : BlockHeader) : Type 0 where
  pub in_range : InInt64 p.height
  pub parent : c.parent_id ≡ p.id
  pub next : c.height ≡ inc64 p.height
  pub above : c.height ≢ genesis_block_index

-- The first header is the genesis header, and each later one is on top of the one before it.
abbrev pub AreOnTop : BlockHeader → List BlockHeader → Type 0
AreOnTop p [] = Unit
AreOnTop p (c ∷ cs) = IsChild p c × AreOnTop c cs

-- Each block's parent is the block before it.
abbrev pub AreLinked : BlockIdentifier → List Block → Type 0
AreLinked id [] = Unit
AreLinked id (b ∷ bs) = (b.parent_block_identifier ≡ id) × AreLinked b.block_identifier bs

abbrev pub to_blocks : List BlockHeader → List Block
to_blocks [] = []
to_blocks (h ∷ hs) = header_to_rosetta_block h ∷ to_blocks hs

child_linked :
    (p c : BlockHeader)
    → IsChild p c
    → (header_to_rosetta_block c).parent_block_identifier
      ≡ (header_to_rosetta_block p).block_identifier
unfolding header_to_rosetta_block
child_linked p c h = elim (Bool-cases (eq_ℤ c.height genesis_block_index)) [
  | inl genesis ↦ absurd (h.above ((eq_ℤ_iff _ _).0 genesis))
  | inr later ↦ rw (later, h.parent, h.next, dec64-inc64 p.height h.in_range)
]

later_linked :
    (p : BlockHeader) (cs : List BlockHeader)
    → AreOnTop p cs
    → AreLinked (header_to_rosetta_block p).block_identifier (to_blocks cs)
later_linked p [] h = tt
later_linked p (c ∷ cs) (h, hs) = (child_linked p c h, later_linked c cs hs)

own_parent :
    (g : BlockHeader)
    → g.height ≡ genesis_block_index
    → (header_to_rosetta_block g).parent_block_identifier
      ≡ (header_to_rosetta_block g).block_identifier
unfolding header_to_rosetta_block
own_parent g first = rw first

-- Headers that form a chain from the genesis height, each naming the one before it and one higher
-- in int64, become blocks that form a chain: the first is its own parent, and the parent of each
-- later one is the block before it.
pub header_to_rosetta_block-AreLinked :
    (g : BlockHeader) (hs : List BlockHeader)
    → g.height ≡ genesis_block_index
    → AreOnTop g hs
    → AreLinked (header_to_rosetta_block g).block_identifier (to_blocks (g ∷ hs))
header_to_rosetta_block-AreLinked g hs first h = (own_parent g first, later_linked g hs h)
