-- ===== src/Tools/Files.antt =====
-- `replace_in_file`, `generate_ssl_stores` and `safe_mkdtemp` of tools.py. `re.sub`, `keytool` and the
-- directory of `tempfile.mkdtemp` are parameters.
use cassandra_dtest.Base.{◌≡◌, refl, List, [], ◌∷◌, ◌++◌, arith, ap₂, ◌==◌, if◌then◌else◌}
use cassandra_dtest.Text.{Text}
use cassandra_dtest.Text.Laws.{Free}

module _ {R : Type 0} (sub : R → Text → Text → Text) where
  -- The inner loop: `line = re.sub(regex, replacement, line)` for each pair.
  unfoldable pub replace_in_line : List (R × Text) → Text → Text
  replace_in_line [] line = line
  replace_in_line ((regex, replacement) ∷ rest) line =
      replace_in_line rest (sub regex replacement line)

  -- `replace_in_file`: the lines of the file, each with its end, before and after.
  unfoldable pub replace_in_file : List (R × Text) → List Text → List Text
  unfolding replace_in_line
  replace_in_file search_replacements [] = []
  replace_in_file search_replacements (line ∷ lines) =
      replace_in_line search_replacements line ∷ replace_in_file search_replacements lines

  replace_in_line-append :
      (xs ys : List (R × Text)) (line : Text)
      → replace_in_line (xs ++ ys) line ≡ replace_in_line ys (replace_in_line xs line)
  unfolding replace_in_line
  replace_in_line-append [] ys line = refl
  replace_in_line-append (x ∷ xs) ys line = replace_in_line-append xs ys (sub x.0 x.1 line)

  -- One pass over the file with the pairs of two lists is a pass with the first and then one with the
  -- second, whatever the substitution does: the pairs are applied in order, line by line.
  pub replace_in_file-append :
      (xs ys : List (R × Text)) (lines : List Text)
      → replace_in_file (xs ++ ys) lines ≡ replace_in_file ys (replace_in_file xs lines)
  unfolding replace_in_file
  replace_in_file-append xs ys [] = refl
  replace_in_file-append xs ys (line ∷ lines) =
      ap₂ (λ l ls. l ∷ ls) (replace_in_line-append xs ys line) (replace_in_file-append xs ys lines)

-- `safe_mkdtemp`: every `\` of the path becomes `/`.
unfoldable pub safe_mkdtemp : Text → Text
safe_mkdtemp [] = []
safe_mkdtemp (c ∷ tmpdir) = (if c == 92 then 47 else c) ∷ safe_mkdtemp tmpdir

safe_mkdtemp-Free : (tmpdir : Text) → Free (λ c. c == 92) (safe_mkdtemp tmpdir)
unfolding safe_mkdtemp
safe_mkdtemp-Free [] = tt
safe_mkdtemp-Free (c ∷ tmpdir) = (ground arith, safe_mkdtemp-Free tmpdir)
