-- ===== src/Tests/Values.antt =====
-- The theorems on the values that Ruby gets, at concrete events and documents.
use microsandbox_rb.Common.{ℕ, ◌≡◌, some}
use microsandbox_rb.Common.Int.{pos}
use microsandbox_rb.Values.Hashes.{int}
use microsandbox_rb.Values.Progress.{
  layer_download_progress, pull_progress_to_hash, read_progress, read_progress-to_hash,
}
use microsandbox_rb.Values.Json.{
  Numbers, number, text, Members, no_more, member, json_to_ruby, object, fetched,
  fetch-json_to_ruby,
}
use microsandbox_rb.Tests.Fixtures.{outside}

read_progress-to_hash_example :
    read_progress outside
      (pull_progress_to_hash outside (layer_download_progress 2 "sha256:ab" 512 (some 2048)))
    ≡ some (layer_download_progress 2 "sha256:ab" 512 (some 2048))
read_progress-to_hash_example =
    read_progress-to_hash outside (layer_download_progress 2 "sha256:ab" 512 (some 2048))

abbrev numbers : Numbers outside
numbers = record {
  Number = ℕ;
  as_i64 = λ n. some (pos n);
  as_u64 = λ n. some (pos n);
  as_f64 = λ n. some n;
}

-- A key that is given twice.
abbrev document : Members outside numbers
document = member "pid" (number 7) (member "name" (text "box") (member "pid" (number 9) no_more))

fetch-json_to_ruby_example :
    fetched outside numbers "pid" (json_to_ruby outside numbers (object document))
    ≡ some (int (pos 9))
unfolding json_to_ruby
fetch-json_to_ruby_example = fetch-json_to_ruby outside numbers "pid" document
