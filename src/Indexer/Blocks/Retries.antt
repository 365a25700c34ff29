-- ===== src/Indexer/Blocks/Retries.antt =====
-- How often `Block` asks the node.
use rosetta_ergo.Base.{
  ℕ, suc, ◌+◌, ◌≤◌, Option, List, [], ◌∷◌, ◌++◌, ◌≡◌, ◌∙◌, ap, arith, ok, err, Err, wrap, length,
  All, ltb, Bool-cases, inl, inr,
}
use rosetta_ergo.Sdk.{PartialBlockIdentifier}
use rosetta_ergo.Ergo.Types.{FullBlock}
use rosetta_ergo.Ergo.Inputs.{InputCtx}
use rosetta_ergo.Indexer.Blocks.{
  Try, retry_limit, get_block_by_identifier, required_inputs, fetch_block,
}

-- The node fails, and the sleep after it is not interrupted.
pub record Fails (id : PartialBlockIdentifier) (t : Try) : Type 0 where
  pub error : Err
  pub is_error : get_block_by_identifier t.node id ≡ err error
  pub sleeps : t.slept ≡ ok tt

fetch_block-after :
    (id : PartialBlockIdentifier) (n : ℕ) (failed later : List Try)
    → n + length failed ≤ retry_limit
    → All (Fails id) failed
    → fetch_block id n (failed ++ later) ≡ fetch_block id (n + length failed) later
unfolding fetch_block
fetch_block-after id n [] later h f = ap (λ k. fetch_block id k later) (omega arith)
fetch_block-after id n (t ∷ failed) later h (f, fs) = elim (Bool-cases (ltb retry_limit (suc n))) [
  | inl over ↦ absurd (ground arith)
  | inr within ↦
      rw (f.is_error, fetch_block)
        (rw within (
          rw f.sleeps (
            fetch_block-after id (suc n) failed later (omega arith) fs
            ∙ ap (λ k. fetch_block id k later) (omega arith))))
]

-- A node that fails up to 5 times and then has the block is asked again until it has it: the block
-- is fetched, with the inputs that it requires.
pub fetch_block-retries :
    (id : PartialBlockIdentifier) (failed : List Try) (t : Try) (later : List Try)
    (b : Option FullBlock) (inputs : List InputCtx)
    → length failed ≤ 5
    → All (Fails id) failed
    → get_block_by_identifier t.node id ≡ ok b
    → required_inputs b ≡ ok inputs
    → fetch_block id 0 (failed ++ t ∷ later) ≡ ok (b, inputs)
unfolding fetch_block
fetch_block-retries id failed t later b inputs h f has requires =
    fetch_block-after id 0 failed (t ∷ later) (omega arith) f ∙ rw (has, fetch_block) (rw requires)

-- After the sixth failure the fetch gives up with the last error, wrapped.
pub fetch_block_gives_up :
    (id : PartialBlockIdentifier) (failed : List Try) (t : Try) (later : List Try) (e : Err)
    → length failed ≡ 5
    → All (Fails id) failed
    → get_block_by_identifier t.node id ≡ err e
    → fetch_block id 0 (failed ++ t ∷ later) ≡ err (wrap e "%w: unable to get raw block %+v" [])
unfolding fetch_block
fetch_block_gives_up id failed t later e n f fails =
    let five : 0 + length failed ≡ 5 = omega arith in
    fetch_block-after id 0 failed (t ∷ later) (omega arith) f
    ∙ ap (λ k. fetch_block id k (t ∷ later)) five
    ∙ rw (fails, fetch_block)
