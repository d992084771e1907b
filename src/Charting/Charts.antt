-- ===== src/Charting/Charts.antt =====
-- static/js/isitsql-charting-1.0.js: NewWaitsChart, NewDiskChart and NewCPUChart.
use Prim.Native.String
use Prim.Native.String.{String}
use isitsql.Common.{ℕ, suc, true, false, Option, none, some, List, [], ◌∷◌}
use isitsql.Common.Int.{ℤ, pos}
use isitsql.Charting.Options.{
  Value, Fields, end, field, num, tenths, str, bool, default_options, waits_options, disk_options,
  cpu_options,
}
use isitsql.Charting.Series.{Point, Series, Dataset, widen, fill_of}

-- The configuration of a chart; `ctx` is the page's element.
pub record Chart : Type 0 where
  pub ctx : String
  pub type : String
  pub datasets : List Dataset
  pub options : Value

-- What a call does, in order.
pub data Effect : Type 0 where
  register_colors : Effect
  get_json : String → Effect
  log : String → Effect
  error : String → Effect
  draw : Chart → Effect
  -- A TypeError thrown in the handler of the answer: nothing is drawn.
  type_error : Effect

-- How the request ends: it fails, or with JSON. `none` is JSON that is null or whose `series` is no
-- array.
pub data Answer : Type 0 where
  failed : Answer
  json : Option (List Series) → Answer

infixr 65 ◌&◌
abbrev ◌&◌ : String → String → String
s & t = String.◌++◌ s t

abbrev line_style : ℕ → Value → Fields → Fields
line_style width fill more =
    field "borderWidth" (num (pos width))
      (field "tension" (tenths 4) (field "pointRadius" (num (pos 0)) (field "fill" fill more)))

-- The function that NewWaitsChart maps over the series, with the index.
unfoldable pub waits_dataset : ℕ → Series → Dataset
unfolding widen
waits_dataset index s = record {
  label = s.name;
  points = widen s.points;
  style = line_style 1 (fill_of index) end;
}

unfoldable pub waits_datasets_from : ℕ → List Series → List Dataset
unfolding waits_dataset
waits_datasets_from index [] = []
waits_datasets_from index (s ∷ ss) = waits_dataset index s ∷ waits_datasets_from (suc index) ss

abbrev colored : ℕ → String → String → Value → Fields → Fields
colored width border background fill more =
    field "borderColor" (str border)
      (field "backgroundColor" (str background) (line_style width fill more))

unfoldable pub disk_datasets : List Point → List Point → List Point → List Dataset
disk_datasets reads writes ple =
    record {
      label = "MB Read/sec";
      points = reads;
      style = colored 1 "rgba(255, 99, 132, 1)" "rgba(255, 99, 132, 0.2)" (str "origin") end;
    }
    ∷ record {
      label = "MB Written/sec";
      points = writes;
      style = colored 2 "rgba(128, 0, 128, 1)" "rgba(128, 0, 128, 0.2)" (bool false) end;
    }
    ∷ record {
      label = "Page Life Expectency (sec)";
      points = ple;
      style =
          colored 2 "rgba(0, 255, 0, 1)" "rgba(0, 0, 0, 0)" (bool false)
            (field "yAxisID" (str "y1") end);
    }
    ∷ []

unfoldable pub cpu_datasets : List Point → List Point → List Point → List Dataset
cpu_datasets other_cpu sql_cpu batches =
    record {
      label = "SQL CPU";
      points = sql_cpu;
      style =
          colored 1 "rgba(255, 99, 132, 1)" "rgba(255, 99, 132, 0.2)" (bool true)
            (field "stack" (str "cpu") end);
    }
    ∷ record {
      label = "Other CPU";
      points = other_cpu;
      style =
          colored 1 "rgba(75, 192, 192, 1)" "rgba(75, 192, 192, 0.2)" (str "-1")
            (field "stack" (str "cpu") end);
    }
    ∷ record {
      label = "Batches/sec";
      points = batches;
      style =
          colored 2 "rgba(0, 255, 0, 1)" "rgba(0, 0, 0, 0)" (bool false)
            (field "yAxisID" (str "y1") end);
    }
    ∷ []

-- json.series[0], [1] and [2] with their data; a missing one is a TypeError.
abbrev first_three : (List Point → List Point → List Point → Effect) → Option (List Series) → Effect
first_three k none = type_error
first_three k (some (a ∷ b ∷ c ∷ more)) = k a.points b.points c.points
first_three k (some short) = type_error

-- `merge a b` is lodash.merge({}, a, b), and `now` the answer of Date.now().
module _ (merge : Value → Value → Value) (now : ℤ) where
  abbrev line_chart : String → Value → List Dataset → Effect
  line_chart container own datasets = draw (record {
    ctx = container;
    type = "line";
    datasets = datasets;
    options = merge (default_options now) own;
  })

  -- The handler of the answer to NewWaitsChart, given its address.
  unfoldable pub waits_answer : String → String → Answer → Effect
  unfolding waits_datasets_from waits_options default_options
  waits_answer container url failed = error ("NewWaitsChart: Failed to load data from " & url)
  waits_answer container url (json none) =
      log ("NewWaitsChart: Invalid or missing 'series' data in API response from " & url & ".")
  waits_answer container url (json (some series)) =
      line_chart container waits_options (waits_datasets_from 0 series)

  -- NewWaitsChart(whichAPI, server, container)
  unfoldable pub new_waits_chart : String → String → String → Answer → List Effect
  unfolding waits_answer
  new_waits_chart api server container answer =
      let url = "/api/" & api & "/" & server & "?keepsort=1" in
      register_colors ∷ get_json url ∷ waits_answer container url answer ∷ []

  unfoldable pub disk_answer : String → String → Answer → Effect
  unfolding disk_datasets disk_options default_options
  disk_answer container url failed = error ("NewDiskChart: Failed to load data from " & url)
  disk_answer container url (json series) =
      first_three (λ r w p. line_chart container disk_options (disk_datasets r w p)) series

  -- NewDiskChart(server, container)
  unfoldable pub new_disk_chart : String → String → Answer → List Effect
  unfolding disk_answer
  new_disk_chart server container answer =
      let url = "/api/disk/" & server in get_json url ∷ disk_answer container url answer ∷ []

  unfoldable pub cpu_answer : String → String → Answer → Effect
  unfolding cpu_datasets cpu_options default_options
  cpu_answer container url failed = error ("NewCPUChart: Failed to load data from " & url)
  cpu_answer container url (json series) =
      first_three (λ o s b. line_chart container cpu_options (cpu_datasets o s b)) series

  -- NewCPUChart(server, container)
  unfoldable pub new_cpu_chart : String → String → Answer → List Effect
  unfolding cpu_answer
  new_cpu_chart server container answer =
      let url = "/api/cpu/" & server in
      register_colors ∷ get_json url ∷ cpu_answer container url answer ∷ []

-- PrintServerName(name)
unfoldable pub print_server_name : String → List Effect
print_server_name name = log name ∷ []
