-- ===== src/Edit/Patch/Hunks.antt =====
-- `patchHunkToResolvedEdits` of tools/filesystem/edit_impl.go.
use agentsdk.Prelude.{
  ℕ, suc, ◌-◌, Bool, not, Option, none, some, List, [], ◌∷◌, ◌++◌, ltb, leb, nat_eq, ◌&&◌, ◌||◌,
  if◌then◌else◌, length, take,
}
use agentsdk.Prelude.Bytes.{Bytes, newline, last_is}
use agentsdk.Prelude.Result.{Result, ok, err, ◌>>=◌}
use agentsdk.Edit.{ResolvedEdit, EditError, bad_patch}
use agentsdk.Edit.Lines.{byte_offset_for_line, split_lines_preserve_shape, advance_offset_by_line}
use agentsdk.Edit.Patch.{PatchHunk}

-- The variables of the changed block.
pub record Block : Type 0 where
  pub start_byte : ℕ
  pub end_byte : ℕ
  pub start_line : ℕ
  pub end_line : ℕ
  pub new_text : Bytes

-- What the loop does not change.
pub record Patching : Type 0 where
  pub content : Bytes
  pub has_trailing : Bool
  pub add_trailing : Bool
  pub line_count : ℕ
  pub op_index : ℕ

abbrev pub trimmed_end : Patching → Block → Bytes
trimmed_end p b =
    if not p.has_trailing
      && (not p.add_trailing
          && (nat_eq b.end_byte (length p.content) && last_is newline b.new_text))
    then take (length b.new_text - 1) b.new_text
    else b.new_text

-- `flush`
abbrev pub flush : Patching → Option Block → List ResolvedEdit
flush p none = []
flush p (some b) =
    record {
      op_index = p.op_index;
      kind = "patch";
      start_byte = b.start_byte;
      end_byte = b.end_byte;
      start_line = b.start_line;
      end_line = b.end_line;
      new_text = trimmed_end p b;
    }
    ∷ []

-- `startBlock`
abbrev pub start_block : ℕ → ℕ → Option Block → Block
start_block byte line (some b) = b
start_block byte line none = record {
  start_byte = byte;
  end_byte = byte;
  start_line = line;
  end_line = line;
  new_text = [];
}

abbrev pub added_text : Patching → ℕ → ℕ → Bytes → Bytes
added_text p byte line text =
    if p.add_trailing || (ltb byte (length p.content) || (p.has_trailing || leb line p.line_count))
    then text ++ newline ∷ []
    else text

pub data Prefix : Type 0 where
  context removed added unsupported : Prefix

abbrev pub prefix_of : ℕ → Prefix
prefix_of c =
    if nat_eq c b' '
    then context
    else if nat_eq c b'-'
    then removed
    else if nat_eq c b'+'
    then added
    else unsupported

-- The loop over a hunk's lines, at an offset and a line, with the block that is open.
unfoldable pub hunk_edits :
    Patching → ℕ → ℕ → Option Block → List Bytes → Result EditError (List ResolvedEdit)
unfolding advance_offset_by_line
hunk_edits p byte line block [] = ok (flush p block)
hunk_edits p byte line block ([] ∷ lines) = hunk_edits p byte line block lines
hunk_edits p byte line block ((c ∷ text) ∷ lines) =
    let behind = advance_offset_by_line p.content byte in
    let b = start_block byte line block in
    elim (prefix_of c) [
      | context ↦ hunk_edits p behind (suc line) none lines >>= λ edits. ok (flush p block ++ edits)
      | removed ↦
          hunk_edits p behind (suc line) (some (record b { end_byte = behind; end_line = line }))
            lines
      | added ↦
          hunk_edits p byte line
            (some (record b { new_text = b.new_text ++ added_text p byte line text })) lines
      | unsupported ↦ err bad_patch
    ]

unfoldable pub patch_hunk_to_resolved_edits :
    Bytes → Bool → PatchHunk → Bool → ℕ → Result EditError (List ResolvedEdit)
unfolding hunk_edits byte_offset_for_line split_lines_preserve_shape
patch_hunk_to_resolved_edits content has_trailing h add_trailing op_index =
    let line = (if nat_eq h.orig_start 0 && nat_eq h.orig_count 0 then 1 else h.orig_start) in
    let p : Patching = record {
      content = content;
      has_trailing = has_trailing;
      add_trailing = add_trailing;
      line_count = length (split_lines_preserve_shape content);
      op_index = op_index;
    } in
    hunk_edits p (byte_offset_for_line content line) line none h.lines

unfoldable pub all_hunk_edits :
    Bytes → Bool → Bool → ℕ → List PatchHunk → Result EditError (List ResolvedEdit)
unfolding patch_hunk_to_resolved_edits
all_hunk_edits content has_trailing add_trailing op_index [] = ok []
all_hunk_edits content has_trailing add_trailing op_index (h ∷ hunks) =
    patch_hunk_to_resolved_edits content has_trailing h add_trailing op_index >>= λ edits.
    all_hunk_edits content has_trailing add_trailing op_index hunks >>= λ rest. ok (edits ++ rest)
