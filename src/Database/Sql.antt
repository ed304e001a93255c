-- ===== src/Database/Sql.antt =====
-- The texts of the statements in batterySystem/manageData.c, as sprintf makes them in `querystring`.
pub mod Bounds
pub mod Buffer
use batterysystem.Common.{ℕ, ◌-◌, List, [], ◌∷◌, ◌++◌, length, replicate}
use batterysystem.Common.Text.{codes}
use batterysystem.Float.{Float}
use batterysystem.Output.{Moment, two_digits}
use batterysystem.Savefile.{decimal}
use batterysystem.Database.{
  Table, Statement, battery_group, battery_single, battery_config, network_config, battery_current,
  create_database, create_table, insert_group, insert_cell, delete_old, select_total, insert_config,
  insert_current,
}

-- localtime, and printf of "%.nf" for a float and for a double
pub record Printing (F : Float) : Type 0 where
  pub localtime : ℕ → Moment
  pub print : ℕ → F.T → List ℕ
  pub print_double : ℕ → F.D → List ℕ

-- DATABASE_NAME
abbrev pub database_name : List ℕ
database_name = codes "batterysystem"

-- the macros for the tables' names
abbrev pub table_name : Table → List ℕ
table_name battery_group = codes "batterygroup"
table_name battery_single = codes "singlebattery"
table_name battery_config = codes "batteryconfig"
table_name network_config = codes "networkconfig"
table_name battery_current = codes "currentdata"

-- The columns of a table. The tabs stand in the source, where a line of the format goes on.
abbrev pub columns : Table → List ℕ
columns battery_group =
    codes
      "(batterytime datetime primary key not null,\t\t\tbatterytotal int not null,sumofvol float(9,3) not null,current float(9,3) not null,temperature float(9,1) not null);"
columns battery_single =
    codes
      "(batterytime datetime not null,batteryid int not null,\t\t\tvoltage float(9,3) not null,resistance float(9,2) not null,capacity float(9,1) not null,PRIMARY KEY (batterytime,batteryid));"
columns battery_config =
    codes
      "(ID int primary key not null auto_increment,\tbattery_total int not null,max_voltage float(9,3) not null,min_voltage float(9,3) not null,max_resistance float(9,2) not null,min_capacity float(9,1) not null);"
columns network_config =
    codes
      "(ID int primary key not null auto_increment,\tip_address varchar(15) not null,netmask varchar(15) not null,gateway varchar(15) not null,dns1 varchar(15) not null,dns2 varchar(15) not null);"
columns battery_current = codes "(time datetime primary key not null,current float(9,3) not null);"

-- "%04d"
unfoldable pub four_digits : ℕ → List ℕ
four_digits n = replicate (4 - length (decimal n)) 48 ++ decimal n

-- `timestring`: "%04d%02d%02d%02d%02d%02d"
unfoldable pub timestring : Moment → List ℕ
unfolding four_digits two_digits
timestring t =
    four_digits t.year
    ++ (two_digits t.month
        ++ (two_digits t.day
            ++ (two_digits t.hour ++ (two_digits t.minute ++ two_digits t.second))))

-- str_to_date in the format, up to the next column
abbrev pub date_open : List ℕ
date_open = codes " value((select str_to_date("

abbrev pub date_close : List ℕ
date_close = codes ",'%Y%m%d%H%i%s')),"

abbrev pub comma : List ℕ
comma = codes ","

-- Where the arguments of datediff are parted stands a full-width comma, of three bytes in UTF-8.
abbrev pub old_condition : List ℕ
old_condition =
    codes " where datediff(date(batterytime)" ++ (239 ∷ 188 ∷ 140 ∷ codes "date(NOW()))>183;")

-- The pieces of the text one after the other.
abbrev pub joined : List (List ℕ) → List ℕ
joined [] = []
joined (piece ∷ pieces) = piece ++ joined pieces

module _ {F : Float} (X : Printing F) where
  -- a format with its arguments put in, in pieces
  unfoldable pub pieces : Statement F → List (List ℕ)
  pieces create_database = codes "CREATE DATABASE " ∷ database_name ∷ codes ";" ∷ []
  pieces (create_table t) = codes "CREATE TABLE if not exists " ∷ table_name t ∷ columns t ∷ []
  pieces (insert_group time total sum current temperature) =
      codes "INSERT INTO "
      ∷ table_name battery_group
      ∷ date_open
      ∷ timestring (X.localtime time)
      ∷ date_close
      ∷ codes "\t\t\t"
      ∷ decimal total
      ∷ comma
      ∷ X.print 3 sum
      ∷ comma
      ∷ X.print 3 current
      ∷ comma
      ∷ X.print 3 temperature
      ∷ codes ");"
      ∷ []
  pieces (insert_cell time number voltage resistance capacity) =
      codes "insert into "
      ∷ table_name battery_single
      ∷ date_open
      ∷ timestring (X.localtime time)
      ∷ date_close
      ∷ decimal number
      ∷ comma
      ∷ X.print 3 voltage
      ∷ comma
      ∷ X.print 3 resistance
      ∷ comma
      ∷ X.print 3 capacity
      ∷ codes ");"
      ∷ []
  pieces (delete_old t) = codes "delete from " ∷ table_name t ∷ old_condition ∷ []
  pieces select_total =
      codes "select battery_total from " ∷ table_name battery_config ∷ codes " where ID=1;" ∷ []
  pieces (insert_config total max_vol min_vol max_res min_cap) =
      codes "insert into "
      ∷ table_name battery_config
      ∷ codes " value(1,"
      ∷ decimal total
      ∷ comma
      ∷ X.print_double 3 max_vol
      ∷ comma
      ∷ X.print_double 3 min_vol
      ∷ comma
      ∷ X.print_double 2 max_res
      ∷ comma
      ∷ X.print_double 1 min_cap
      ∷ codes ");"
      ∷ []
  pieces (insert_current time current) =
      codes "INSERT INTO "
      ∷ table_name battery_current
      ∷ date_open
      ∷ timestring (X.localtime time)
      ∷ date_close
      ∷ codes "\t\t\t"
      ∷ X.print 3 current
      ∷ codes ");"
      ∷ []

  unfoldable pub sql : Statement F → List ℕ
  unfolding pieces
  sql s = joined (pieces s)
