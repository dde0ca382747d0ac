-- ===== src/Tests.antt =====
-- Concrete inputs at which the theorems apply, and runs of the definitions.
mod Tailing
mod Rotating
mod Records
mod Parsing
mod Collecting
mod Journal
mod Unified
mod Polling
mod Events
mod Containers
use witness.Prelude.{
  ◌≡◌, refl, false, not, Option, none, some, List, [], ◌∷◌, map, append-nil, ◌==◌, if◌then◌else◌,
  drop,
}
use witness.Std.Case.{Case}
use witness.Prelude.Str.{Bytes, codes, to_ascii_lower, eqb}
use witness.Utf8.{is_utf8}
use witness.Crates.{Crates, View, text, object, position, positions}
use witness.Sink.{Sink, live, discard}
use witness.Structured.Classify.{FileParseOpts}
use witness.Watcher.State.{File, FileId, TailedFile}
use witness.Watcher.Identity.{FileSystem, Metadata}
use witness.Text.{Reader, chunk}
use witness.Text.Reading.{data_of}
use witness.Text.Loop.{IsClean}
use witness.Watcher.Polls.{Holds}

-- JSON that is a text, or an object of texts.
pub data Json : Type 0 where
  word : Bytes → Json
  fields : List (Bytes × Bytes) → Json

abbrev json_view : Json → View (List (Bytes × Bytes))
json_view (word s) = text s
json_view (fields m) = object m

abbrev word_of : Json → Bytes
word_of (word s) = s
word_of (fields m) = codes "{}"

abbrev find_key : Bytes → List (Bytes × Bytes) → Option Json
find_key k [] = none
find_key k ((j, s) ∷ m) = if eqb j k then some (word s) else find_key k m

abbrev without : Bytes → List (Bytes × Bytes) → List (Bytes × Bytes)
without k [] = []
without k ((j, s) ∷ m) = if eqb j k then without k m else (j, s) ∷ without k m

abbrev pub crates_example : Crates
crates_example = record {
  memchr = position;
  memchr_first = λ c s. refl;
  memchr_iter = positions;
  memchr_iter_all = λ c s. refl;
  simd_utf8 = is_utf8;
  simd_utf8_valid = λ s. refl;
  Value = Json;
  Map = List (Bytes × Bytes);
  from_str = λ s. if eqb s (codes "{}") then some (fields []) else none;
  to_string = word_of;
  view = json_view;
  text_value = word;
  object_value = fields;
  entries = map (λ e. (e.0, word e.1));
  collect = map (λ e. (e.0, word_of e.1));
  get = find_key;
  remove = without;
  view_text = λ s. refl;
  view_object = λ m. refl;
}

abbrev pub case_example : Case
case_example = record { to_lowercase = map to_ascii_lower; to_lowercase_ascii = λ s h. refl }

abbrev pub plain : FileParseOpts
plain = record { syslog = false; structured = false; levels = false }

abbrev pub content : Bytes
content = codes "a\nb\n"

abbrev one_chunk : Bytes → Reader
one_chunk [] = []
one_chunk (c ∷ cs) = chunk (c ∷ cs) ∷ []

one_chunk-IsClean : (s : Bytes) → IsClean (one_chunk s)
one_chunk-IsClean [] = tt
one_chunk-IsClean (c ∷ cs) = tt

data_of-one_chunk : (s : Bytes) → data_of (one_chunk s) ≡ s
unfolding data_of
data_of-one_chunk [] = refl
data_of-one_chunk (c ∷ cs) = append-nil (c ∷ cs)

abbrev pub file_example : File
file_example = record { reader_at = λ q. some (one_chunk (drop q content)) }

pub file_example-Holds : Holds file_example content
file_example-Holds q = (
  one_chunk (drop q content),
  refl,
  one_chunk-IsClean (drop q content),
  data_of-one_chunk (drop q content),
)

abbrev pub id_example : FileId
id_example = record { dev = 1; ino = 2 }

abbrev pub tailed : TailedFile
tailed = record {
  path = codes "/var/log/app.log";
  pos = 0;
  id = id_example;
  partial = [];
  open_failures = 0;
  retained_fd = none;
  skip_utf16 = false;
  agg = none;
}

abbrev pub sink_example : Sink Json
sink_example = record { inner = discard; tags = []; taken = [] }

-- A client whose channel is full at the second call.
abbrev pub full_once : Sink Json
full_once = record { inner = live (λ n. not (n == 1)) 0; tags = []; taken = [] }

-- A client whose channel stays full.
abbrev pub full : Sink Json
full = record { inner = live (λ n. false) 0; tags = []; taken = [] }

abbrev pub fs_example : FileSystem
fs_example = record {
  metadata = λ path. some (record { id = id_example; len = 4; age = some 5 });
  open_file = λ path. some (file_example, some (record { id = id_example; len = 4; age = some 5 }));
  head = λ path. some content;
  siblings = λ path. [];
}
