-- ===== src/Edit/Resolve/Patching.antt =====
-- The edits of a patch's hunks are edits of bytes of the text.
use agentsdk.Prelude.{
  ℕ, suc, ◌≤◌, Bool, Option, none, some, List, [], ◌∷◌, ◌++◌, arith, All, All-append, length,
}
use agentsdk.Prelude.Bytes.{Bytes}
use agentsdk.Prelude.Result.{Result, ok, err, ◌>>=◌}
use agentsdk.Edit.{ResolvedEdit, EditError, bad_patch}
use agentsdk.Edit.Lines.{advance_offset_by_line}
use agentsdk.Edit.Merge.Order.{IsInRange}
use agentsdk.Edit.Patch.{PatchHunk}
use agentsdk.Edit.Patch.Hunks.{
  Block, Patching, flush, start_block, Prefix, context, removed, added, unsupported, prefix_of,
  added_text, hunk_edits, patch_hunk_to_resolved_edits, all_hunk_edits,
}
use agentsdk.Edit.Lines.Offsets.{byte_offset-le, advance-le}

-- Where it succeeds, all its edits are in range.
abbrev pub Yields : Bytes → Result EditError (List ResolvedEdit) → Type 0
Yields content (err e) = Unit
Yields content (ok edits) = All (IsInRange content) edits

pub Yields-bind :
    (content : Bytes) (r : Result EditError (List ResolvedEdit))
    (f : List ResolvedEdit → Result EditError (List ResolvedEdit))
    → Yields content r
    → ((edits : List ResolvedEdit) → All (IsInRange content) edits → Yields content (f edits))
    → Yields content (r >>= f)
Yields-bind content (err e) f h k = tt
Yields-bind content (ok edits) f h k = k edits h

pub Yields-after :
    {A : Type 0} (content : Bytes) (r : Result EditError A)
    (f : A → Result EditError (List ResolvedEdit))
    → ((a : A) → Yields content (f a))
    → Yields content (r >>= f)
Yields-after content (err e) f k = tt
Yields-after content (ok a) f k = k a

-- An open block ends at the current byte or before it.
abbrev IsOpen : ℕ → Option Block → Type 0
IsOpen byte none = Unit
IsOpen byte (some b) = (b.start_byte ≤ b.end_byte) × (b.end_byte ≤ byte)

pub flush-Ranged :
    (p : Patching) (byte : ℕ) (block : Option Block)
    → byte ≤ length p.content
    → IsOpen byte block
    → All (IsInRange p.content) (flush p block)
flush-Ranged p byte none h o = tt
flush-Ranged p byte (some b) h o = (record { forward = o.0; inside = omega (arith, h, o.1) }, tt)

pub start_block-IsOpen :
    (byte line : ℕ) (block : Option Block)
    → IsOpen byte block
    → IsOpen byte (some (start_block byte line block))
start_block-IsOpen byte line none o = (omega arith, omega arith)
start_block-IsOpen byte line (some b) o = o

pub hunk_edits-Yields :
    (p : Patching) (byte line : ℕ) (block : Option Block) (lines : List Bytes)
    → byte ≤ length p.content
    → IsOpen byte block
    → Yields p.content (hunk_edits p byte line block lines)
unfolding hunk_edits
hunk_edits-Yields p byte line block [] h o = flush-Ranged p byte block h o
hunk_edits-Yields p byte line block ([] ∷ lines) h o = hunk_edits-Yields p byte line block lines h o
hunk_edits-Yields p byte line block ((c ∷ text) ∷ lines) h o =
    go (prefix_of c)
      (λ q k.
        hunk_edits-Yields p (advance_offset_by_line p.content byte) (suc line) q lines
          (advance-le p.content byte h).1 k)
      (λ q k. hunk_edits-Yields p byte line q lines h k)
  where
    go :
        (x : Prefix)
        → ((q : Option Block)
            → IsOpen (advance_offset_by_line p.content byte) q
            → Yields p.content
                (hunk_edits p (advance_offset_by_line p.content byte) (suc line) q lines))
        → ((q : Option Block) → IsOpen byte q → Yields p.content (hunk_edits p byte line q lines))
        → Yields p.content (elim x [
          | context ↦
              hunk_edits p (advance_offset_by_line p.content byte) (suc line) none lines
              >>= λ edits. ok (flush p block ++ edits)
          | removed ↦
              hunk_edits p
                (advance_offset_by_line p.content byte)
                (suc line)
                (some (record (start_block byte line block) {
                  end_byte = advance_offset_by_line p.content byte;
                  end_line = line;
                }))
                lines
          | added ↦
              hunk_edits p byte line
                (some (record (start_block byte line block) {
                  new_text = (start_block byte line block).new_text ++ added_text p byte line text;
                }))
                lines
          | unsupported ↦ err bad_patch
        ])
    go context next same = Yields-bind p.content _ _ (next none tt) λ edits k.
        All-append (IsInRange p.content) (flush p block) edits (flush-Ranged p byte block h o) k
    go removed next same =
        let (ahead, fits) = advance-le p.content byte h in
        let started = start_block-IsOpen byte line block o in
        next (some _) (omega (arith, started.0, started.1, ahead), omega arith)
    go added next same = same (some _) (start_block-IsOpen byte line block o)
    go unsupported next same = tt

pub all_hunk_edits-Yields :
    (content : Bytes) (trailing adds : Bool) (i : ℕ) (hunks : List PatchHunk)
    → Yields content (all_hunk_edits content trailing adds i hunks)
unfolding all_hunk_edits patch_hunk_to_resolved_edits
all_hunk_edits-Yields content trailing adds i [] = tt
all_hunk_edits-Yields content trailing adds i (h ∷ hunks) =
    Yields-bind content _ _ (hunk_edits-Yields _ _ _ none h.lines (byte_offset-le content _) tt)
      λ edits k.
        Yields-bind content _ _ (all_hunk_edits-Yields content trailing adds i hunks)
          λ rest m. All-append (IsInRange content) edits rest k m
