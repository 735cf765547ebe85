-- ===== src/Nodeagent/Checkpoint.antt =====
-- internal/nodeagent/checkpoint/checkpoint.go: the file of the allocations on a node. The file is what
-- reading and decoding it gives; whether the file system lets a call read and write is an argument.
use vgpu_scheduler.Prelude.{ℕ, String, Bool, not, [], if◌then◌else◌, Result, ok, err}
use vgpu_scheduler.Prelude.Dict.{Dict, insert, delete}

pub record CheckpointRecord : Type 0 where
  pub allocation_id : String
  pub slice_uid : String
  pub slice_name : String
  pub namespace : String
  pub claim_name : String
  pub device_uuid : String
  pub allocated_bytes : ℕ
  pub node_name : String
  pub created_at : ℕ

pub data CheckpointFile : Type 0 where
  absent corrupt : CheckpointFile
  records : Dict CheckpointRecord → CheckpointFile

-- Whether the directory can be made, and the file read and replaced.
pub record FileAnswers : Type 0 where
  pub dir_made : Bool
  pub readable : Bool
  pub written : Bool

pub data CheckpointError : Type 0 where
  no_directory read_failed corrupt_checkpoint write_failed : CheckpointError

-- `LoadAll`; it is also how Save reads the file that it replaces.
unfoldable pub load_all :
    FileAnswers → CheckpointFile → Result CheckpointError (Dict CheckpointRecord)
load_all fs absent = ok []
load_all fs corrupt = if fs.readable then err corrupt_checkpoint else err read_failed
load_all fs (records m) = if fs.readable then ok m else err read_failed

-- `writeAtomic`: the file is the new one or the old one.
abbrev replace :
    FileAnswers
    → Dict CheckpointRecord
    → CheckpointFile
    → Result CheckpointError (Unit {0}) × CheckpointFile
replace fs m file = if fs.written then (ok tt, records m) else (err write_failed, file)

unfoldable pub save :
    FileAnswers
    → CheckpointRecord
    → CheckpointFile
    → Result CheckpointError (Unit {0}) × CheckpointFile
unfolding load_all
save fs r file = if not fs.dir_made then (err no_directory, file) else elim (load_all fs file) [
  | err e ↦ (err e, file)
  | ok m ↦ replace fs (insert r.allocation_id r m) file
]

abbrev replace_deleted :
    FileAnswers → String → CheckpointFile → Result CheckpointError (Unit {0}) × CheckpointFile
replace_deleted fs id absent = (ok tt, absent)
replace_deleted fs id corrupt = (err corrupt_checkpoint, corrupt)
replace_deleted fs id (records m) = replace fs (delete id m) (records m)

-- `Delete`: without a file there is nothing to delete.
unfoldable pub delete_record :
    FileAnswers → String → CheckpointFile → Result CheckpointError (Unit {0}) × CheckpointFile
unfolding load_all
delete_record fs id file = elim (load_all fs file) [
  | err e ↦ (err e, file)
  | ok m ↦ replace_deleted fs id file
]
