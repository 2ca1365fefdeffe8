-- ===== src/Disk.antt =====
-- The calls of Go's `os` package that the generator makes, on an explicit store of regular files.
-- A world holds the files and, for each call still to come, a turn: what other processes write just
-- before the call, whether the call fails, and the random part of a name that it makes up. A path is
-- a directory and a name; the names that `CreateTemp` makes up for the patterns of `writeAtomic` are
-- kept apart from all others, which are called plain. Directories, modes and partial writes of a
-- scratch file are not modelled, and a call that fails changes nothing.
pub mod Names
pub mod Rules
pub mod Calls
use roost_codegen.Prelude.{
  String, Bool, true, false, List, [], ◌∷◌, Option, none, some, str_eq, ◌&&◌, if◌then◌else◌,
}
pub use roost_codegen.Prelude.Result.{Result, ok, err}

pub data FileName : Type 0 where
  plain : String → FileName
  -- `.roost-write-*`
  write_scratch : String → FileName
  -- `.<base>.roost-backup-*`
  backup_scratch : FileName → String → FileName

pub record FilePath : Type 0 where
  pub dir : String
  pub base : FileName

unfoldable pub name_eq : FileName → FileName → Bool
name_eq (plain s) (plain t) = str_eq s t
name_eq (write_scratch s) (write_scratch t) = str_eq s t
name_eq (backup_scratch a s) (backup_scratch b t) = name_eq a b && str_eq s t
name_eq _ _ = false

unfoldable pub path_eq : FilePath → FilePath → Bool
unfolding name_eq
path_eq p q = str_eq p.dir q.dir && name_eq p.base q.base

abbrev pub Store : Type 0
Store = FilePath → Option String

abbrev pub put : Store → FilePath → Option String → Store
put files p content q = if path_eq p q then content else files q

pub data OsError : Type 0 where
  not_exist failure : OsError

pub record Turn : Type 0 where
  pub edits : List (FilePath × Option String)
  pub fault : Bool
  pub name : String

pub record World : Type 0 where
  pub files : Store
  pub turns : List Turn

abbrev pub Io : Type 0 → Type 0 → Type 0
Io E A = World → Result E A × World

abbrev pub apply_edits : List (FilePath × Option String) → Store → Store
apply_edits [] files = files
apply_edits ((p, content) ∷ edits) files = apply_edits edits (put files p content)

-- What a call does if it does not fail, given the name that it may make up.
abbrev pub Effect : Type 0 → Type 0
Effect A = String → Store → Result OsError A × Store

abbrev pub no_name : String
no_name = ""

-- A call takes the next turn; where none is left, it runs alone and does not fail.
abbrev pub run :
    {A : Type 0} → Effect A → Bool → String → Store → List Turn → Result OsError A × World
run effect true name files turns = (err failure, record { files = files; turns = turns })
run effect false name files turns =
    let (r, files') = effect name files in (r, record { files = files'; turns = turns })

abbrev pub call_with : {A : Type 0} → Effect A → Store → List Turn → Result OsError A × World
call_with effect files [] = run effect false no_name files []
call_with effect files (t ∷ turns) = run effect t.fault t.name (apply_edits t.edits files) turns

unfoldable pub call : {A : Type 0} → Effect A → Io OsError A
call effect w = call_with effect w.files w.turns

abbrev read_effect : Option String → Store → Result OsError String × Store
read_effect none files = (err not_exist, files)
read_effect (some content) files = (ok content, files)

unfoldable pub read_file : FilePath → Io OsError String
unfolding call
read_file p = call (λ name files. read_effect (files p) files)

abbrev remove_effect : FilePath → Option String → Store → Result OsError (Unit {0}) × Store
remove_effect p none files = (err not_exist, files)
remove_effect p (some content) files = (ok tt, put files p none)

unfoldable pub remove : FilePath → Io OsError (Unit {0})
unfolding call
remove p = call (λ name files. remove_effect p (files p) files)

-- `MkdirAll`, `Sync` and `Close`, which change no file.
unfoldable pub pass : Io OsError (Unit {0})
unfolding call
pass = call (λ name files. (ok tt, files))

abbrev create_effect : FilePath → Option String → Store → Result OsError FilePath × Store
create_effect p none files = (ok p, put files p (some ""))
create_effect p (some content) files = (err failure, files)

-- `CreateTemp`: the name made up is new, or the call fails.
unfoldable pub create_temp : String → (String → FileName) → Io OsError FilePath
unfolding call
create_temp dir scratch = call (λ name files.
    let p : FilePath = record { dir = dir; base = scratch name } in create_effect p (files p) files)

abbrev write_effect : FilePath → String → Option String → Store → Result OsError (Unit {0}) × Store
write_effect p body none files = (ok tt, files)
write_effect p body (some content) files = (ok tt, put files p (some body))

-- A write through the handle of a new file; if the file was unlinked, nothing is seen of it.
unfoldable pub write : FilePath → String → Io OsError (Unit {0})
unfolding call
write p body = call (λ name files. write_effect p body (files p) files)

abbrev stat_effect : Option String → Store → Result OsError (Unit {0}) × Store
stat_effect none files = (err not_exist, files)
stat_effect (some content) files = (ok tt, files)

-- `Stat`, and `Chmod`, whose mode is not modelled.
unfoldable pub stat : FilePath → Io OsError (Unit {0})
unfolding call
stat p = call (λ name files. stat_effect (files p) files)

abbrev rename_effect :
    FilePath → FilePath → Option String → Store → Result OsError (Unit {0}) × Store
rename_effect p q none files = (err not_exist, files)
rename_effect p q (some content) files = (ok tt, put (put files p none) q (some content))

unfoldable pub rename : FilePath → FilePath → Io OsError (Unit {0})
unfolding call
rename p q = call (λ name files. rename_effect p q (files p) files)
