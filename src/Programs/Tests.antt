-- ===== src/Programs/Tests.antt =====
-- cat reads the one file of the image on which the kernel's tests run; ls reads a directory of two
-- entries, on which the tests of syserr run too; counter counts to 3.
use illinix_os.Prelude.{
  ℕ, zero, suc, ◌≡◌, ◌≢◌, ◌≤◌, ◌+◌, ◌*◌, ◌<◌, refl, arith, List, [], length, ◌==◌, if◌then◌else◌,
}
use illinix_os.Prelude.Text.{bytes_of}
use illinix_os.Prelude.Word.{failure}
use illinix_os.FileSys.Image.{
  Image, byte_at, word_at, bytes_at, entry_name, entry_type, entry_inode, length_in_bytes,
}
use illinix_os.FileSys.Dentry.{strlen, char_at}
use illinix_os.FileSys.Data.{Buffer}
use illinix_os.FileSys.Data.Contents.{file_byte}
use illinix_os.Strings.{array_bytes}
use illinix_os.FileSys.Dentry.Names.{text, name_of}
use illinix_os.FileSys.Tests.{image, shell, no_bytes, shell_length, shell_inode, shell-IsFile}
use illinix_os.Terminal.{write_chars}
use illinix_os.Kernel.{Kernel, descriptor}
use illinix_os.Kernel.Syscalls.{Arrivals, returned, closed}
use illinix_os.Kernel.Syscalls.Open.{Names}
use illinix_os.Kernel.Tests.{machine, idle, with_file, idle-LowestFree, shell_type}
use illinix_os.Programs.{cat_file, finished}
use illinix_os.Programs.Output.{HasOutput}
use illinix_os.Programs.Printing.{write_text}
use illinix_os.Programs.Counter.{count_numbers}
use illinix_os.Programs.Counter.Numbers.{AreLines, count_numbers-writes}
use illinix_os.Programs.Errors.Steps.{IsFresh}
use illinix_os.Programs.Errors.Opens.{IsMissing}
use illinix_os.Programs.Errors.Main.{Setting, all_tests, all_tests-passes}
use illinix_os.Programs.Listing.{ls}
use illinix_os.Programs.Listing.Loop.{entry_text, listing}
use illinix_os.Programs.Listing.Main.{ls-lists}
use illinix_os.Programs.Opened.{cat_file-writes}

abbrev nothing : Arrivals
nothing = record { ticks = 0; lines = [] }

output : HasOutput with_file
output = record { used = λ e. absurd (omega arith); writes = refl }

-- The argument of cat.
abbrev argument : Buffer
argument i = char_at shell i

argument-Names : Names (image 2 1) (array_bytes 1024 0 argument) 0
unfolding strlen name_of text entry_name bytes_at byte_at array_bytes
argument-Names = record {
  nonempty = omega arith;
  short = omega arith;
  entry = omega arith;
  same = refl;
  first = λ m h. absurd (omega arith);
}

idle-HasOutput : HasOutput idle
idle-HasOutput = record { used = λ e. absurd (omega arith); writes = refl }

cat_file-writes_example :
    (k' : Kernel) × (cat_file 2 nothing argument idle ≡ finished 0 k')
    × (k'.screen
        ≡ write_chars
            (length_in_bytes (image 2 1) (entry_inode (image 2 1) 0))
            0
            0
            0
            (file_byte (image 2 1) (entry_inode (image 2 1) 0))
            idle.screen)
cat_file-writes_example =
    cat_file-writes 2 nothing 0 2 argument idle argument-Names (idle-LowestFree (image 2 1))
      shell_type (rw (shell_inode 2 1) (omega arith)) (rw (shell_inode 2 1) (shell-IsFile 2))
      idle-HasOutput (rw (shell_inode 2 1, shell_length 2 1) (omega arith))

-- "." and a file "a".
abbrev disk : Image
disk a =
    if a == 64
    then 46
    else if a == 96
    then 1
    else if a == 128
    then 97
    else if a == 160
    then 2
    else 0

abbrev with_disk : Kernel
with_disk = machine disk failure closed

disk_type : entry_type disk 0 ≡ 1
unfolding entry_type word_at byte_at
disk_type = refl

first_text : length (entry_text disk 0) ≡ 1
unfolding name_of text entry_name bytes_at byte_at
first_text = refl

second_text : length (entry_text disk 1) ≡ 1
unfolding name_of text entry_name bytes_at byte_at
second_text = refl

no_third : length (entry_text disk 2) ≡ 0
unfolding name_of text entry_name bytes_at byte_at
no_third = refl

dot-Names : Names disk (bytes_of ".") 0
unfolding strlen name_of text entry_name bytes_at byte_at
dot-Names = record {
  nonempty = omega arith;
  short = omega arith;
  entry = omega arith;
  same = refl;
  first = λ m h. absurd (omega arith);
}

two_names : (j : ℕ) → j < 2 → 0 < length (entry_text disk j)
two_names zero h = omega (arith, first_text)
two_names (suc zero) h = omega (arith, second_text)
two_names (suc (suc j)) h = absurd (omega arith)

with_disk-HasOutput : HasOutput with_disk
with_disk-HasOutput = record { used = λ e. absurd (omega arith); writes = refl }

ls-lists_example :
    (k' : Kernel) × (ls 3 nothing no_bytes with_disk ≡ finished 0 k')
    × (k'.screen ≡ write_text 0 0 (listing disk 2 0) with_disk.screen)
ls-lists_example =
    ls-lists 2 3 nothing 0 2 no_bytes with_disk dot-Names (idle-LowestFree disk) disk_type
      with_disk-HasOutput (omega arith) (omega arith) two_names no_third

-- What it has written.
disk_listing : listing disk 2 0 ≡ bytes_of ".\na\n"
unfolding listing name_of text entry_name bytes_at byte_at
disk_listing = refl

-- No entry starts with "h" or "s".
first_byte :
    (m : ℕ) → m < 63 → (byte_at disk (64 + 64 * m) ≢ 104) × (byte_at disk (64 + 64 * m) ≢ 115)
unfolding byte_at
first_byte m h = ground arith

no_helloo : IsMissing disk (bytes_of "helloo")
unfolding name_of text entry_name bytes_at
no_helloo m h e = ground (arith, (first_byte m h).0, e)

no_shel : IsMissing disk (bytes_of "shel")
unfolding name_of text entry_name bytes_at
no_shel m h e = ground (arith, (first_byte m h).1, e)

with_disk-IsFresh : IsFresh disk with_disk
with_disk-IsFresh = record {
  disk = refl;
  output = with_disk-HasOutput;
  below = free;
  above = λ i from to. absurd (omega arith);
}
  where
    free : (i : ℕ) → 2 ≤ i → i < 8 → (descriptor with_disk i).flags ≡ 0
    free zero from to = absurd (omega arith)
    free (suc zero) from to = absurd (omega arith)
    free (suc (suc zero)) from to = refl
    free (suc (suc (suc i))) from to = refl

setting : Setting
setting = record {
  jumptable = λ num k. returned (0, k);
  arrivals = nothing;
  old0 = 0;
  old1 = 0;
  stack = λ n. no_bytes;
}

all_tests-passes_example : (k' : Kernel) × (all_tests setting with_disk ≡ finished 0 k')
all_tests-passes_example =
    all_tests-passes setting disk with_disk 0 with_disk-IsFresh dot-Names disk_type no_helloo
      no_shel

count_numbers-writes_example :
    (k' : Kernel) × (t : List ℕ) × (count_numbers 3 0 no_bytes with_file ≡ finished 0 k')
    × AreLines 3 0 t
    × (k'.screen ≡ write_text 0 0 t with_file.screen)
count_numbers-writes_example = count_numbers-writes 3 0 no_bytes with_file (omega arith) output
