-- ===== src/Tests/Files.antt =====
-- The theorems of the buffered files at a file in memory.
use hbackup.Prelude.{◌≡◌, refl, [], some, true, Bytes, codes, arith}
use hbackup.Outcome.{ok, and_then}
use hbackup.File.{File, new_file, getline, getbytes, put_all, flush}
use hbackup.File.Read.{stream, Took, new_file-IsReadable}
use hbackup.File.Lines.{line_from, getline-line_from}
use hbackup.File.Blocks.{Block, getbytes-Block}
use hbackup.File.Taker.{IsWritable}
use hbackup.File.Write.{flush-put_all}
use hbackup.Tests.Memory.{memory_file, memory_file-IsReader, memory_file-IsWriter}

abbrev opened : File memory_file
opened = new_file (codes "ab\ncd", [])

getline_test : (getline memory_file 9 opened).0 ≡ ok (some (codes "ab"))
unfolding getline
getline_test = refl

getline-line_from_example :
    (g : File memory_file) × (getline memory_file 9 opened
      ≡ (ok (line_from [] (stream memory_file memory_file-IsReader opened)).0, g))
    × Took memory_file memory_file-IsReader
        (line_from [] (stream memory_file memory_file-IsReader opened)).1
        g
getline-line_from_example =
    getline-line_from memory_file memory_file-IsReader 9 opened
      (new_file-IsReadable memory_file memory_file-IsReader (codes "ab\ncd", [])) (omega arith)

getbytes_test : (getbytes memory_file 4 true opened).0 ≡ ok (codes "ab\nc")
unfolding getbytes
getbytes_test = refl

getbytes-Block_example :
    (chunk : Bytes) × (g : File memory_file) × (getbytes memory_file 4 true opened ≡ (ok chunk, g))
    × Block memory_file memory_file-IsReader opened 4 true chunk g
getbytes-Block_example =
    getbytes-Block memory_file memory_file-IsReader 4 true opened (omega arith)
      (new_file-IsReadable memory_file memory_file-IsReader (codes "ab\ncd", []))

fresh-IsWritable : IsWritable memory_file (new_file ([], codes "x"))
fresh-IsWritable = record { not_reading = λ e. cc; idle_empty = λ _. refl; fits = omega arith }

flush-put_all_example :
    (g : File memory_file) × (and_then
        (put_all memory_file (codes "yz") (new_file ([], codes "x")))
        (λ _ h. flush memory_file h)
      ≡ (ok tt, g))
    × (g.device.1 ≡ codes "xyz")
    × (g.buffered ≡ [])
flush-put_all_example =
    flush-put_all memory_file memory_file-IsWriter (codes "yz") (new_file ([], codes "x"))
      fresh-IsWritable
