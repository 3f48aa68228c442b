-- ===== src/Files/Texts.antt =====
-- A file system of texts, which has the laws that the theorems on files ask for.
use dapper_distributed_traci.Prelude.{
  String, Bool, true, false, ◌≡◌, refl, ap, ◌∙◌, Option, none, some, ◌==◌, eq_iff,
}
use dapper_distributed_traci.Table.{Table, lookup, insert, delete}
use dapper_distributed_traci.Table.Laws.{lookup-insert, lookup-delete}
use dapper_distributed_traci.Files.{Read, missing, content, FileSystem}
use dapper_distributed_traci.Files.Storing.{FileLaws}

abbrev pub as_read : Option String → Read
as_read none = missing
as_read (some text) = content text

abbrev pub moved : Option String → String → String → Table String → Table String × Bool
moved none p q d = (d, false)
moved (some text) p q d = (insert q text (delete p d), true)

-- A file is a text under its path, and no call but the renaming of a missing file fails.
abbrev pub texts : FileSystem (Table String)
texts = record {
  read_file = λ p d. as_read (lookup p d);
  write_file = λ p text d. (insert p text d, true);
  rename = λ p q d. moved (lookup p d) p q d;
  remove = λ p d. delete p d;
}

inserted : (p text : String) (d : Table String) → lookup p (insert p text d) ≡ some text
inserted p text d =
    let same : (p == p) ≡ true = (eq_iff p p).1 refl in lookup-insert p p text d ∙ (rw same refl)

left_alone :
    (p other text : String) (d : Table String)
    → (p == other) ≡ false
    → lookup other (insert p text d) ≡ lookup other d
left_alone p other text d apart = lookup-insert p other text d ∙ (rw apart refl)

read_moved :
    (o : Option String) (p q : String) (d : Table String)
    → (moved o p q d).1 ≡ true
    → lookup q (moved o p q d).0 ≡ o
read_moved none p q d h = absurd (cc)
read_moved (some text) p q d h = inserted q text (delete p d)

moved_keeps :
    (o : Option String) (p q other : String) (d : Table String)
    → (p == other) ≡ false
    → (q == other) ≡ false
    → lookup other (moved o p q d).0 ≡ lookup other d
moved_keeps none p q other d h k = refl
moved_keeps (some text) p q other d h k =
    left_alone q other text (delete p d) k ∙ (lookup-delete p other d ∙ (rw h refl))

pub texts-FileLaws : FileLaws texts
texts-FileLaws = record {
  read-write_file = λ p text d h. ap (λ o. as_read o) (inserted p text d);
  write_file-keeps =
      λ p text other d h apart. ap (λ o. as_read o) (left_alone p other text d apart);
  read-rename = λ p q d h. ap (λ o. as_read o) (read_moved (lookup p d) p q d h);
  rename-keeps = λ p q other d h apart apart'.
      ap (λ o. as_read o) (moved_keeps (lookup p d) p q other d apart apart');
}
