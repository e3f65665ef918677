-- ===== src/Iofilter/Examples.antt =====
-- Tests of lib/iofilter, and the theorems at a concrete writer.
use repeatr.Base.{◌≡◌, refl, Text, str, nat_eq, [], ◌∷◌, ◌++◌}
use repeatr.Iofilter.{line_indenting_writer, write}
use repeatr.Iofilter.Chunks.{IsPartial, feed, write-feed}

abbrev second_line : Text
second_line = str "b" ++ (13 ∷ 10 ∷ str "c")

write_runs :
    write second_line (write (str "a") line_indenting_writer)
    ≡ record line_indenting_writer { rem = str "c"; delegate = ((9 ∷ str "ab") ++ (10 ∷ [])) ∷ [] }
unfolding write nat_eq
write_runs = refl

write-feed_example :
    write second_line line_indenting_writer ≡ feed second_line line_indenting_writer
write-feed_example = write-feed second_line line_indenting_writer (unfold IsPartial in tt)
