-- ===== src/Files.antt =====
-- The file functions of includes/io_utils.h. The file system is a parameter.
use simple_server.Prelude.{◌||◌, Option, none, some, List, [], ◌∷◌, Bytes, codes, if◌then◌else◌}
use simple_server.Text.Search.{text_eq}
use simple_server.Text.Lines.{lines, unlines}

-- `full_path` is what `snprintf` writes for "%s/%s" into the buffer of 1024 characters: the source
-- passes it a `std::string` object, for which the language does not define the result.
pub record FileSystem : Type 0 where
  pub open_file : Bytes → Option Bytes
  pub open_dir : Bytes → Option (List Bytes)
  pub full_path : Bytes → Bytes → Bytes

module _ (fs : FileSystem) where
  unfoldable pub read_text_file : Bytes → Bytes
  read_text_file src = elim (fs.open_file src) [
    | none ↦ []
    | some content ↦ unlines (lines content)
  ]

  -- The loop over the entries; both branches of the test on `S_ISDIR` do the same.
  unfoldable pub list_entries : Bytes → List Bytes → List Bytes
  list_entries path [] = []
  list_entries path (name ∷ names) =
      let later = list_entries path names in
      if text_eq name (codes ".") || text_eq name (codes "..")
      then later
      else fs.full_path path name ∷ later

  unfoldable pub list_dir : Bytes → List Bytes
  unfolding list_entries
  list_dir path = elim (fs.open_dir path) [
    | none ↦ path ∷ []
    | some names ↦ list_entries path names
  ]

unfoldable pub str_to_byte_array : Bytes → Bytes
str_to_byte_array [] = []
str_to_byte_array (c ∷ str) = c ∷ str_to_byte_array str
