-- ===== src/Core/MarkerExamples.antt =====
-- A small conflict of crates/naatre-core/src/conflict.rs, rendered and detected.
use naatre.Prelude.{
  ◌≡◌, refl, true, false, some, [], ◌∷◌, arith, Bytes, Result, ok, err, codes, replicate, take,
}
use naatre.Core.Ids
use naatre.Core.Utf8
use naatre.Core.Text
use naatre.Core.Conflict.{ConflictRep}
use naatre.Core.Conflict.Markers
use naatre.Core.Conflict.Markers.{marker_bytes, marker_shaped, marker_opener}
use naatre.Core.Conflict.Markers.Prefix.{marker_opener-marker_shaped}

abbrev edited : ConflictRep
edited = record {
  path = codes "a/b";
  base = some (replicate 32 7);
  base_exec = false;
  sides = replicate 32 1 ∷ replicate 32 2 ∷ [];
  sides_exec = false ∷ true ∷ [];
  deleted = false;
}

abbrev content_of : Bytes → Result Bytes Bytes
content_of id = ok (codes "text")

abbrev rendered : Result Bytes Bytes → Bytes
rendered (ok bytes) = bytes
rendered (err message) = []

abbrev marker_file : Bytes
marker_file = rendered (marker_bytes content_of edited)

marker_file_shaped : marker_shaped marker_file ≡ true
unfolding Ids.to_hex Utf8.scan_step Utf8.scan Utf8.is_utf8 Text.strip_prefix Text.strip_suffix
    Text.split_once Text.onto_first Text.split_inclusive Text.strip_line Text.lines
    Text.decimal_from Text.decimal Text.parse_digits Markers.ends_line Markers.push_block
    Markers.opener_line Markers.base_line Markers.side_line Markers.closer_line Markers.base_section
    Markers.side_sections Markers.deleted_section Markers.marker_bytes
    Markers.parse_canonical_decimal Markers.is_blob_hex Markers.is_side_ref
    Markers.parse_opener_rest Markers.parse_opener Markers.parse_counts Markers.parse_side_divider
    Markers.divider_step Markers.base_step Markers.line_step Markers.lines_loop Markers.pop
    Markers.is_closer Markers.shaped_rest Markers.shaped_lines Markers.marker_shaped
marker_file_shaped = refl

marker_opener-marker_shaped_example : marker_opener (take 128 marker_file) ≡ true
marker_opener-marker_shaped_example =
    marker_opener-marker_shaped marker_file 128 marker_file_shaped (omega arith)
