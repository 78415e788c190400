-- ===== src/Logging/Flushers/Tests.antt =====
-- Log files on a small file system: the world lists the directories, and only the directory `log`
-- can be missing and made.
use net_base.Base.{
  equals, ◌≡◌, refl, true, [], none, some, Bytes, codes, equals, equals_refl, if◌then◌else◌, subst,
  ap, All, ◌≢◌, arith,
}
use net_base.File.{open_file}
use net_base.File.Opening.{FileSystem, create_dir, make_missing, open_named, opened}
use net_base.Logging.Flushers.{dir_name, before_slash}
use net_base.Logging.Flushers.Opening.{FileSystemLaws, named_flusher, named_flusher-none}

-- The world is the name of the only directory.
abbrev one_directory : FileSystem
one_directory = record {
  World = Bytes;
  stat_sys = λ name w. equals name w;
  mkdir_sys = λ name mode w. (true, name);
  open_sys = λ name w. (if equals name w then none else some 5, w);
}

abbrev laws : FileSystemLaws one_directory
laws = record {
  IsDirectory = λ name w. name ≡ w;
  mkdir_law = λ name mode w h. refl;
  open_law = λ name w e.
      ap (λ b. if b then none else some 5) (subst (λ v. equals name v ≡ true) e (equals_refl name));
}

no_slash : All (λ c. c ≢ b'/') (codes "a.log")
no_slash = (omega arith, (omega arith, (omega arith, (omega arith, (omega arith, tt)))))

named_flusher-none_run : (named_flusher one_directory 4 (codes "a.log") []).0 ≡ none
named_flusher-none_run =
    named_flusher-none one_directory 4 laws (codes "a.log") [] no_slash refl refl

with_slash_run :
    named_flusher one_directory 4 (codes "l/a") [] ≡ (some (open_file 4 (some 5)), codes "l")
unfolding named_flusher dir_name before_slash create_dir make_missing open_named opened
with_slash_run = refl
