-- ===== src/OsServices/ProcMgmt/Inherited/Table.antt =====
-- A table of descriptors that meets the laws of the interface.
use the_pipe.Base.{ℕ, refl, Bool, false, ◌||◌, Option, none, ◌==◌, if◌then◌else◌}
use the_pipe.Utils.Segments.Cover.{contains}
use the_pipe.OsServices.ProcMgmt.Inherited.{FileTable}

pub record Descriptors : Type 0 where
  pub file : ℕ → Option ℕ
  pub on_exec : ℕ → Bool

abbrev pub descriptors : FileTable
descriptors = record {
  State = Descriptors;
  File = ℕ;
  file = λ s. s.file;
  on_exec = λ s. s.on_exec;
  dup2 = λ s old new. record {
    file = λ g. if new == g then s.file old else s.file g;
    on_exec = λ g. if old == new then s.on_exec g else (if new == g then false else s.on_exec g);
  };
  close_range = λ s r. record s { on_exec = λ g. contains r g || s.on_exec g };
  execve = λ s. record s { file = λ g. if s.on_exec g then none else s.file g };
  dup2-file = λ s old new g. refl;
  dup2-on_exec = λ s old new g apart. rw apart refl;
  close_range-file = λ s r g. refl;
  close_range-on_exec = λ s r g. refl;
  execve-file = λ s g. refl;
}
