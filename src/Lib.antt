-- ===== src/Lib.antt =====
-- The roost code generator (github.com/tjbdwanghaibo/roost-codegen): a command that keeps a game
-- server project in step with its manifest and with the markers in its Go sources. It renders a
-- project into a staging directory, plans the difference to the real one and commits it; it gives out
-- numeric ids; it resolves which modules of the kit a project needs; and it generates transports from
-- annotated interfaces. The files are about these parts:
-- Mods (internal/roost/catalog.go): `resolveMods` over the catalogue of kit modules. `visit` is the
--   recursive closure of the source with its captured variables as a record, on fuel; `length` of the
--   catalogue plus one is enough, since each nested call is for another entry of the catalogue.
-- Ids (internal/roost/id.go): `CheckIDs` and `NextID` over the uses that the scan of the sources
--   found, and the id spaces of the manifest. The loop of `NextID` counts in an int64 that wraps
--   round; its fuel is the number of ids of the range and one more test, which is enough since behind
--   the greatest int64 comes a negative number, which no use holds.
-- Disk: the file system that the next part works on, as a store of files with a turn for every
--   call. At each turn other processes may write files, and a call may fail; both are parameters. It
--   stands for the functions of Go's package os, which the repository only calls.
-- Sync (internal/roost/project.go): `writeAtomic`, `verifySyncChangeCurrent`, `commitSyncChanges` and
--   `rollbackSync`, call by call on Disk. The plan that they commit is an argument.
-- Inputs (internal/roost/generate.go): `verifyProjectInputs`, the guard before a commit that nobody
--   has changed a file which the generators may have read. The files that the walk reaches and the
--   hash function are arguments.
-- The module Plan (internal/roost/project.go and dependencies.go): what a sync changes,
--   `planManifestSync`, `planExplicitStagedFiles` and the last loop of `planStagedProjectCommit`, with
--   the guard of Inputs and their commits by Sync, and the merges of plans and results. What is
--   rendered, and the paths that the walks find, are arguments.
-- Version (internal/roost/manifest.go): the text of a release, its order, and the policies of the
--   manifest. Go's regular expression for a release is a matcher; a number that does not fit a 64-bit
--   int is refused, as by the source's `Sscanf`.
-- Manifest (internal/roost/manifest.go, catalog.go and framework_services.go): the manifest and
--   `Validate` with every error that it joins; Services has its checks of services and remote
--   procedures, Validate the rest and their order. Maps are lists of entries in the order of their
--   iteration. It asks Mods for the resolution of mods and Version for the policies; Given joins it with
--   `NextID` of Ids.
-- Marker (internal/marker/marker.go): the comment markers.
-- Attribute (internal/attribute): Tag reads struct tags and the parameters of a marker (util.go),
--   Profile numbers the fields of a marked struct and Formulas collects the methods that compute a
--   field (parse.go); the other files have the proofs. The order in which formulas
--   are run, `topoFormulas`, is not modelled. Ids are the bit patterns of Go's int.
-- Rpc (internal/servicerpc): Wire is the check of the types that cross the bus (wiresafe.go), with 9
--   levels as the source's `depth > 8` leaves; Service is the validation of an interface (validate.go);
--   Parse finds the marked interfaces of a package and gathers what the package declares (parse.go).
--   Syntax trees are data with the cases that the source tells apart, and Unicode's table of
--   upper-case letters is a parameter.
-- Prelude has what they share. In each part the file of the part's name has the definitions, the
-- files below it the proofs, and Tests the runs at concrete inputs. Errors are values without their
-- message texts. The bounds of ids are integers: the code compares them, and counts only in `NextID`,
-- whose int64 is modelled. Strings are compared as a whole, or are lists of
-- code points where the code walks them.
-- Not modelled: the decoding of YAML and the rendering of project files, which are libraries and
-- templates; the walks over directories and the staging directory; the printing of Go text; the
-- commands that run others; the command line; and the generators for entities, tables, protocols and
-- events.
mod Prelude
pub mod Mods
pub mod Ids
pub mod Disk
pub mod Sync
pub mod Inputs
pub mod Rpc
pub mod Attribute
pub mod Marker
pub mod Plan
pub mod Version
pub mod Manifest
