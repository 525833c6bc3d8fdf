-- ===== src/Edit.antt =====
-- tools/filesystem/edit_impl.go: the edit operations of the file_edit tool on the text of one file.
-- Offsets and lines are numbers. A line number that is negative stands as 0: the code tests line
-- numbers for `< 1` only.
pub mod Lines
pub mod Merge
pub mod Patch
pub mod Resolve
mod Examples
use agentsdk.Prelude.{
  ℕ, ◌+◌, String, Bool, true, false, Option, none, some, List, is_some, if◌then◌else◌, nat_eq,
}
use agentsdk.Prelude.Bytes.{Bytes}

pub record ReplaceOp : Type 0 where
  pub old_string : Bytes
  pub new_string : Bytes
  pub replace_all : Bool
  pub if_missing : Bytes

-- `Indent`: "auto", which is also the empty text, "none", or any other text.
pub data Indent : Type 0 where
  unset auto keep : Indent
  other : String → Indent

pub record InsertOp : Type 0 where
  pub line : ℕ
  pub content : Bytes
  pub indent : Indent

-- The two embedded pointers.
pub record RemoveOp : Type 0 where
  pub by_string : Option Bytes
  pub by_lines : Option (List ℕ)

pub record Operation : Type 0 where
  pub replace : Option ReplaceOp
  pub insert : Option InsertOp
  pub remove : Option RemoveOp
  pub append : Option Bytes
  pub patch : Option Bytes

abbrev pub one_if : Bool → ℕ
one_if true = 1
one_if false = 0

unfoldable pub valid : Operation → Bool
valid o =
    nat_eq
      (one_if (is_some o.replace)
        + (one_if (is_some o.insert)
            + (one_if (is_some o.remove) + (one_if (is_some o.append) + one_if (is_some o.patch)))))
      1

pub record ResolvedEdit : Type 0 where
  pub op_index : ℕ
  pub kind : String
  pub start_byte : ℕ
  pub end_byte : ℕ
  pub start_line : ℕ
  pub end_line : ℕ
  pub new_text : Bytes

pub data EditError : Type 0 where
  old_string_required old_string_not_found multiple_matches line_too_small missing_target
        wrong_lines invalid_range invalid_line unknown_operation patch_required bad_patch
        overlapping_edits invalid_edit :
      EditError
  conflict : (op with_op : ℕ) → EditError
  at_operation : ℕ → EditError → EditError
