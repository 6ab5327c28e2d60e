-- ===== src/Controls/Store/File.antt =====
-- `FileControlStore` of controls.py: for each run the text of its controls.jsonl. Creating folders,
-- locks, flushing and input errors are left out.
pub mod Laws
use Prim.Native.Char.{Char, code}
use Prim.Native.String.{◌++◌ as str_append}
use Prim.Native.String
use hermes_plugin_dynamic_wo.Prelude.{
  String, ◌≡◌, ◌≢◌, refl, ap, sym, ◌∙◌, Bool, true, false, not, ◌&&◌, ◌||◌, Option, none, some,
  List, [], ◌∷◌, ◌++◌, ◌==◌, arith, nat_eq, leb, if◌then◌else◌, Option-cases, Bool-cases, eq_iff,
  eq_refl, inl, inr,
}
use hermes_plugin_dynamic_wo.Prelude.Dict
use hermes_plugin_dynamic_wo.Prelude.Dict.{Dict, get, put, get-put, values-append, put_new}
use hermes_plugin_dynamic_wo.Python.Value.{Value, obj}
use hermes_plugin_dynamic_wo.Python.Text.{Unicode, strip, is_ascii_alnum, all_chars, text_length}
use hermes_plugin_dynamic_wo.Python.Lines.{
  split_lines, is_one_line, IsComplete, split_lines-append, append-IsComplete, nil-IsComplete,
}
use hermes_plugin_dynamic_wo.Controls.Records.{
  WorkflowControl, Result, ok, err, guard, ◌>>=◌, ◌>>◌, unsafe_segment,
}
use hermes_plugin_dynamic_wo.Controls.Codec.{to_dict, from_dict, IsWellFormed, from_dict-to_dict}
use hermes_plugin_dynamic_wo.Controls.Store.Buckets.{IsKeyed, find-values, IsKeyed-put}
use hermes_plugin_dynamic_wo.Controls.Store.Interface.{ControlStore, find_control, stored, extended}

-- What the store takes from outside: `json`, `str.strip`, `str(x)` and the clock of `from_dict`.
pub record Codec : Type 0 where
  pub dumps : Value → String
  pub loads : String → Option Value
  pub unicode : Unicode
  pub text : Value → String
  pub now : String

-- The characters of a segment behind its first, and the whole of `_SEGMENT_RE`.
abbrev is_segment_char : Char → Bool
is_segment_char c =
    is_ascii_alnum c || nat_eq (code c) b'_' || nat_eq (code c) b'.' || nat_eq (code c) b'-'

unfoldable pub is_segment : String → Bool
unfolding all_chars
is_segment String.[] = false
is_segment (String.◌∷◌ c s) =
    is_ascii_alnum c && all_chars is_segment_char s && leb (text_length s) 127

-- The text of each run's file; a missing file is a missing key.
abbrev pub Files : Type 0
Files = Dict String

abbrev pub file_text : Option String → String
file_text none = ""
file_text (some t) = t

module _ (w : Codec) where
  -- A line of the file as a record of this run, if it is one.
  abbrev keep_run : String → Result WorkflowControl → Option WorkflowControl
  keep_run run_id (err e) = none
  keep_run run_id (ok c) = if c.run_id == run_id then some c else none

  abbrev parsed : String → Option Value → Option WorkflowControl
  parsed run_id none = none
  parsed run_id (some v) = keep_run run_id (from_dict w.text w.now v)

  unfoldable pub read_line : String → String → Option WorkflowControl
  unfolding from_dict strip
  read_line run_id raw =
      let line = strip w.unicode raw in if line == "" then none else parsed run_id (w.loads line)

  -- The first write of an id wins.
  abbrev file_new :
      Option WorkflowControl → WorkflowControl → Dict WorkflowControl → Dict WorkflowControl
  file_new none c out = put c.control_id c out
  file_new (some old) c out = out

  abbrev file_under : Option WorkflowControl → Dict WorkflowControl → Dict WorkflowControl
  file_under none out = out
  file_under (some c) out = file_new (get c.control_id out) c out

  unfoldable pub load_lines : String → Dict WorkflowControl → List String → Dict WorkflowControl
  load_lines run_id out [] = out
  load_lines run_id out (l ∷ ls) = load_lines run_id (file_under (read_line run_id l) out) ls

  -- `_load_unlocked`
  unfoldable pub load : Files → String → Dict WorkflowControl
  unfolding load_lines read_line split_lines
  load s run_id = load_lines run_id [] (split_lines (file_text (get run_id s)))

  abbrev pub line_of : WorkflowControl → String
  line_of c = w.dumps (obj (to_dict c))

  abbrev pub write_line : Files → WorkflowControl → Files
  write_line s c =
      put c.run_id (str_append (file_text (get c.run_id s)) (str_append (line_of c) "\n")) s

  append_known : Option WorkflowControl → Files → WorkflowControl → Result WorkflowControl × Files
  append_known (some old) s c = (ok old, s)
  append_known none s c = (ok c, write_line s c)

  unfoldable pub append : Files → WorkflowControl → Result WorkflowControl × Files
  unfolding append_known load is_segment to_dict
  append s c =
      if is_segment c.run_id && is_segment c.control_id
      then append_known (get c.control_id (load s c.run_id)) s c
      else (err unsafe_segment, s)

  unfoldable pub list_for : Files → String → Result (List WorkflowControl)
  unfolding load is_segment
  list_for s run_id = do guard (is_segment run_id) unsafe_segment; ok (Dict.values (load s run_id))

  abbrev pub view : Files → String → List WorkflowControl
  view s run_id = Dict.values (load s run_id)

  -- Every file of the store ends with a line end.
  abbrev pub IsValid : Files → Type 0
  IsValid s = (r : String) → IsComplete (file_text (get r s))

  -- The record is well formed, its ids are segments, and its line is one line that `strip` leaves
  -- alone and that `json.loads` reads back.
  pub record IsStorable (c : WorkflowControl) : Type 0 where
    pub run_id : is_segment c.run_id ≡ true
    pub control_id : is_segment c.control_id ≡ true
    pub well_formed : IsWellFormed c
    pub nonempty : line_of c ≢ ""
    pub one_line : is_one_line (line_of c) ≡ true
    pub stripped : strip w.unicode (line_of c) ≡ line_of c
    pub carried : w.loads (line_of c) ≡ some (obj (to_dict c))
