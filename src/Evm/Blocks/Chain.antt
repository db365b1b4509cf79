-- ===== src/Evm/Blocks/Chain.antt =====
-- The chain that a monitor has been shown, as a stack of blocks with the newest on top: a block that
-- is applied must extend the top, and a block that is removed must be the top. And how a progress
-- describes such a chain.
use mathlib.Core.Path.{subst}
use mathlib.Core.List.{append_assoc}
use monitord.Base.{
  ℕ, suc, ◌^◌, ◌≤◌, ◌<◌, Text, text_eq, text_eq_refl, eq_of_text_eq, ◌≡◌, refl, ap, ◌∙◌, Bool, true,
  false, ◌&&◌, Option, none, some, List, [], ◌∷◌, ◌++◌, arith, All, if◌then◌else◌, ◌==◌, length,
}
use monitord.Evm.Blocks.{
  BlockReference, BlockProgress, Delivery, following, valid_hash, follows, contiguous,
  follows_journal, is_empty, trim, popped, validate_progress,
}
use monitord.Evm.Blocks.Advance.{Settings, extended}
use monitord.Evm.Blocks.Journal.{trim-prefix, contiguous-prefix}

abbrev pub Chain : Type 0
Chain = List BlockReference

unfoldable pub same_reference : BlockReference → BlockReference → Bool
same_reference a b =
    a.number == b.number && (text_eq a.hash b.hash && text_eq a.parent_hash b.parent_hash)

unfoldable pub act : Bool → BlockReference → Chain → Option Chain
unfolding same_reference follows
act true r [] = none
act true r (top ∷ chain) = if same_reference r top then some chain else none
act false r chain = if follows r chain then some (r ∷ chain) else none

unfoldable pub act_on : Delivery → Option Chain → Option Chain
unfolding act
act_on d none = none
act_on d (some chain) = act d.removed d.reference chain

-- The chain after deliveries, newest first, on the chain before them.
unfoldable pub play : Chain → List Delivery → Option Chain
unfolding act_on
play chain [] = some chain
play chain (d ∷ ds) = act_on d (play chain ds)

unfoldable pub is_linked : Chain → Bool
unfolding follows
is_linked [] = true
is_linked (b ∷ chain) = follows b chain && is_linked chain

abbrev pub IsAtTop : BlockProgress → Chain → Type 0
IsAtTop p [] = Unit
IsAtTop p (top ∷ chain) = (p.next_block ≡ following top.number) × (p.canonical_parent ≡ top.hash)

-- The progress stands above the top of the chain, and its journal is the top of the chain.
pub record Describes (c : Settings) (p : BlockProgress) (chain : Chain) : Type 0 where
  pub chain_id : p.chain_id ≡ c.chain_id
  pub bounded : length p.recent ≤ c.max_recent
  pub valid : contiguous p.recent ≡ true
  pub cursor : follows_journal p.next_block p.canonical_parent p.recent ≡ true
  pub older : Chain
  pub journal : chain ≡ p.recent ++ older
  pub linked : is_linked chain ≡ true
  pub small : All (λ b. suc b.number < 2 ^ 64) chain
  pub top : IsAtTop p chain

text_eq_of_eq : (a b : Text) → a ≡ b → text_eq a b ≡ true
text_eq_of_eq a b e = rw e (text_eq_refl b)

-- A progress that describes a chain passes the validation of the next start.
pub Describes-validate_progress :
    (c : Settings) (p : BlockProgress) (chain : Chain)
    → Describes c p chain
    → validate_progress c.chain_id c.max_recent p ≡ true
unfolding validate_progress
Describes-validate_progress c p chain d = ground (
  arith,
  d.chain_id,
  text_eq_of_eq p.chain_id c.chain_id d.chain_id,
  d.bounded,
  d.valid,
  d.cursor,
)

pub following-small : (n : ℕ) → suc n < 2 ^ 64 → following n ≡ suc n
unfolding following
following-small n h = omega arith

nonempty_hash : (h : Text) → valid_hash h ≡ true → is_empty h ≡ false
unfolding valid_hash
nonempty_hash [] h = cc
nonempty_hash (x ∷ xs) h = refl

follows-IsAtTop :
    (p : BlockProgress) (r : BlockReference) (rest : Chain)
    → p.next_block ≡ r.number
    → p.canonical_parent ≡ r.parent_hash
    → follows r rest ≡ true
    → IsAtTop p rest
unfolding follows
follows-IsAtTop p r [] n h f = tt
follows-IsAtTop p r (top ∷ rest) n h f =
    let number : r.number ≡ following top.number = ground arith in
    let hash : r.parent_hash ≡ top.hash = eq_of_text_eq r.parent_hash top.hash (ground arith) in
    (n ∙ number, h ∙ hash)

pub cursor-nonempty :
    (n : ℕ) (parent : Text) → valid_hash parent ≡ true → follows_journal n parent [] ≡ true
unfolding follows_journal
cursor-nonempty n parent v = ground (arith, nonempty_hash parent v)

popped-cursor :
    (last : BlockReference) (older : Chain)
    → contiguous (last ∷ older) ≡ true
    → follows_journal last.number last.parent_hash older ≡ true
unfolding contiguous follows_journal
popped-cursor last [] v = cursor-nonempty last.number last.parent_hash (ground arith)
popped-cursor last (o ∷ os) v = ground arith

IsAtTop-follows :
    (p : BlockProgress) (b : BlockReference) (chain : Chain)
    → b.number ≡ p.next_block
    → (0 < p.next_block → b.parent_hash ≡ p.canonical_parent)
    → All (λ r. suc r.number < 2 ^ 64) chain
    → IsAtTop p chain
    → follows b chain ≡ true
unfolding follows
IsAtTop-follows p b [] n h small top = refl
IsAtTop-follows p b (t ∷ rest) n h small top =
    let next = top.0 ∙ following-small t.number small.0 in
    let parent = text_eq_of_eq b.parent_hash t.hash (h (omega arith) ∙ top.1) in
    ground (arith, n ∙ top.0, parent)

follows-prefix :
    (b : BlockReference) (recent older : Chain)
    → follows b (recent ++ older) ≡ true
    → follows b recent ≡ true
unfolding follows
follows-prefix b [] older f = refl
follows-prefix b (r ∷ recent) older f = f

extended-cursor :
    (b : BlockReference) (rs kept dropped : Chain)
    → valid_hash b.hash ≡ true
    → b ∷ rs ≡ kept ++ dropped
    → follows_journal (following b.number) b.hash kept ≡ true
unfolding follows_journal
extended-cursor b rs [] dropped v e = cursor-nonempty (following b.number) b.hash v
extended-cursor b rs (k ∷ kept) dropped v e =
    let same : b ≡ k = cc in
    let number = ap (λ (r : BlockReference). following r.number) same in
    ground (arith, number, text_eq_of_eq b.hash k.hash (ap (λ (r : BlockReference). r.hash) same))

module _ (c : Settings) (p : BlockProgress) (chain : Chain) where
  -- The chain without its top, and the progress below it.
  pub popped-Describes :
      (last : BlockReference) (older : Chain)
      → p.recent ≡ last ∷ older
      → Describes c p chain
      → (rest : Chain) × (chain ≡ last ∷ rest) × Describes c (popped p last older) rest
  unfolding contiguous is_linked
  popped-Describes last older e d =
      let rest = older ++ d.older in
      let whole : chain ≡ last ∷ rest = d.journal ∙ ap (λ l. l ++ d.older) e in
      let linked : is_linked (last ∷ rest) ≡ true =
        subst (λ l. is_linked l ≡ true) whole d.linked in
      let small = subst (All (λ b. suc b.number < 2 ^ 64)) whole d.small in
      let valid : contiguous (last ∷ older) ≡ true = subst (λ l. contiguous l ≡ true) e d.valid in
      let bounded : length (last ∷ older) ≤ c.max_recent =
        subst (λ l. length l ≤ c.max_recent) e d.bounded in
      (
        rest,
        whole,
        record {
          chain_id = d.chain_id;
          bounded = omega arith;
          valid = ground arith;
          cursor = popped-cursor last older valid;
          older = d.older;
          journal = refl;
          linked = ground arith;
          small = small.1;
          top = follows-IsAtTop (popped p last older) last rest refl refl (ground arith);
        },
      )

  -- A block that extends the top, and the progress above it.
  pub extended-Describes :
      (target : ℕ) (b : BlockReference)
      → b.number ≡ p.next_block
      → (0 < p.next_block → b.parent_hash ≡ p.canonical_parent)
      → valid_hash b.hash ≡ true
      → valid_hash b.parent_hash ≡ true
      → suc b.number < 2 ^ 64
      → length (extended target c p b).recent ≤ c.max_recent
      → Describes c p chain
      → (follows b chain ≡ true) × Describes c (extended target c p b) (b ∷ chain)
  unfolding extended contiguous is_linked
  extended-Describes target b n h v w small full d =
      let kept = trim target c.confirmations (b ∷ p.recent) in
      let (dropped, e) = trim-prefix target c.confirmations (b ∷ p.recent) in
      let fits : follows b chain ≡ true = IsAtTop-follows p b chain n h d.small d.top in
      let before =
        follows-prefix b p.recent d.older (subst (λ l. follows b l ≡ true) d.journal fits) in
      let valid : contiguous (b ∷ p.recent) ≡ true = ground (arith, before, d.valid) in
      (
        fits,
        record {
          chain_id = d.chain_id;
          bounded = full;
          valid = contiguous-prefix kept dropped (subst (λ l. contiguous l ≡ true) e valid);
          cursor = extended-cursor b p.recent kept dropped v e;
          older = dropped ++ d.older;
          journal =
              ap (λ l. b ∷ l) d.journal
              ∙ ap (λ l. l ++ d.older) e
              ∙ append_assoc kept dropped d.older;
          linked = ground (arith, fits, d.linked);
          small = (small, d.small);
          top = (refl, refl);
        },
      )
