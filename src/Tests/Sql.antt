-- ===== src/Tests/Sql.antt =====
-- The texts of statements, with numbers printed as whole thousandths.
use batterysystem.Common.{
  some, true, ℕ, ◌+◌, ◌/◌, ◌%◌, ◌≤◌, ◌<◌, ◌≡◌, refl, List, [], ◌∷◌, ◌++◌, length, arith,
}
use batterysystem.Common.Int.{ℤ, pos, negsuc}
use batterysystem.Common.Text.{codes}
use batterysystem.Float.Fixed.{fixed}
use batterysystem.Output.{Moment, two_digits}
use batterysystem.Savefile.{decimal, digits, header_line}
use batterysystem.Savefile.Fields.{resistance_fields}
use batterysystem.Savefile.Fields.Size.{file-bound}
use batterysystem.Pack.{SingleBattery}
use batterysystem.Database.{Statement, create_table, battery_single, insert_cell}
use batterysystem.Database.Sql.{Printing, four_digits, timestring, pieces, sql}
use batterysystem.Database.Sql.Buffer.{empty_query, sprintf, queries}
use batterysystem.Database.Sql.Buffer.Plain.{is_plain, is_plain-append, decimal-plain, IsPrinted}
use batterysystem.Database.Sql.Buffer.Sent.{AreSent, queries-AreSent}
use batterysystem.Tests.Text.{fixed_text}

abbrev thousandths : ℕ → List ℕ
thousandths n =
    decimal (n / 1000) ++ (46 ∷ (48 + n / 100 % 10) ∷ (48 + n / 10 % 10) ∷ (48 + n % 10) ∷ [])

abbrev print_thousandths : ℤ → List ℕ
print_thousandths (pos n) = thousandths n
print_thousandths (negsuc n) = 45 ∷ thousandths (n + 1)

abbrev date : Moment
date = record { year = 2015; month = 12; day = 3; hour = 9; minute = 5; second = 7 }

abbrev printing : Printing fixed
printing = record {
  localtime = λ t. date;
  print = λ k v. print_thousandths v;
  print_double = λ k v. print_thousandths v;
}

abbrev row : Statement fixed
row = insert_cell 1000 7 (pos 2125) (pos 40) (pos 50000)

cell_row :
    sql printing row
    ≡ codes
        "insert into singlebattery value((select str_to_date(20151203090507,'%Y%m%d%H%i%s')),7,2.125,0.040,50.000);"
unfolding sql pieces timestring four_digits two_digits digits
cell_row = refl

thousandths-plain : (n : ℕ) → is_plain (thousandths n) ≡ true
thousandths-plain n =
    is_plain-append (decimal (n / 1000)) _ (decimal-plain (n / 1000)) (ground arith)

print_thousandths-plain : (i : ℤ) → is_plain (print_thousandths i) ≡ true
print_thousandths-plain (pos n) = thousandths-plain n
print_thousandths-plain (negsuc n) = thousandths-plain (n + 1)

printing-IsPrinted : IsPrinted printing
printing-IsPrinted = record {
  print-plain = λ k x. print_thousandths-plain x;
  print_double-plain = λ k x. print_thousandths-plain x;
}

-- The row after the longer statement that creates its table.
abbrev two_statements : List (Statement fixed)
two_statements = create_table battery_single ∷ row ∷ []

queries-AreSent_example :
    (buffers : List (List ℕ)) × (queries printing empty_query two_statements ≡ some buffers)
    × AreSent printing empty_query two_statements buffers
unfolding digits
queries-AreSent_example =
    queries-AreSent printing printing-IsPrinted empty_query two_statements refl
      (tt, ((omega arith, omega arith, omega arith, omega arith, omega arith), tt))

-- In a buffer of eight characters: a text, and what is left of it behind a shorter one.
remains :
    sprintf (codes "CREATE" ++ 0 ∷ 0 ∷ []) (codes "drop")
    ≡ some (codes "drop" ++ 0 ∷ codes "E" ++ 0 ∷ 0 ∷ [])
unfolding sprintf
remains = refl

abbrev cell_of : ℕ → SingleBattery fixed
cell_of n = record { voltage = pos 0; temperature = pos 0; resistance = pos n; capacity = pos 0 }

abbrev two_cells : List (SingleBattery fixed)
two_cells = cell_of 40 ∷ cell_of 50 ∷ []

file-bound_example :
    (length (header_line 2 1234 99) + 1 ≤ 256)
    × (length (header_line 2 1234 99 ++ resistance_fields fixed_text two_cells) < 1024)
unfolding digits
file-bound_example =
    file-bound fixed_text 2 1234 99 two_cells (omega arith) (omega arith) (omega arith)
      (omega arith) (omega arith, (omega arith, tt))
