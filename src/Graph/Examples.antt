-- ===== src/Graph/Examples.antt =====
-- Instances of the theorems on the commit graph.
use gitglasses.Base.{
  ◌/◌, ◌-◌, ◌&&◌, ◌+◌, ◌≤◌, codes, Text, List, refl, [], ◌∷◌, true, false, none, some, ◌≡◌, arith,
}
use gitglasses.Graph.Edges.{edge_color_lane, LaneEdge, ChipBox, line, merge_in}
use gitglasses.Graph.Find.{
  load, restore_step, find_count_label, context_menu_from_pointer, FindMatch,
}
use gitglasses.Graph.Menus.{filter_label}
use gitglasses.Graph.Columns.{
  column_layout_lem, column_room, min_description_width, column_layout, ColumnWidths,
}
use gitglasses.Graph.Lanes.{graph_column_width, LaneCap}
use gitglasses.Graph.Rows.{lane_color}
use gitglasses.Graph.Selection.{remap_selection, SelectionState, IsSelection}
use gitglasses.Base.Int.{◌+ℤ◌, pos}
use gitglasses.Base.Sets.{has}
use gitglasses.Graph.Selection.Invariant.{remap_selection-IsSelection}
use gitglasses.Base.Decimal.{decimal}

abbrev shas : List Text
shas = codes "aa" ∷ codes "bb" ∷ codes "cc" ∷ []

abbrev clicked : SelectionState
clicked = record { selected = codes "aa" ∷ []; anchor = pos 0 }

clicked-IsSelection : IsSelection clicked shas
clicked-IsSelection = record {
  anchored = omega arith;
  distinct = (refl, tt);
  listed = λ sha h. ground arith;
}

abbrev merge_edge : LaneEdge
merge_edge = record { from_lane = 2; to_lane = 0; kind = merge_in }

abbrev chip : ChipBox
chip = record {
  x = 10;
  y = 10;
  width = 50;
  height = 12;
  ref_name = codes "main";
  row = some 0;
  ref_index = some 0;
}

remap_selection-IsSelection_example :
    let after = remap_selection clicked shas (codes "bb" ∷ []) in
    IsSelection after (codes "bb" ∷ [])
    × ((sha : Text)
        → has sha after.selected ≡ (has sha clicked.selected && has sha (codes "bb" ∷ [])))
remap_selection-IsSelection_example =
    remap_selection-IsSelection clicked shas (codes "bb" ∷ []) clicked-IsSelection

abbrev one_match : List FindMatch
one_match = record { sha = codes "aa"; index = 7 } ∷ []

abbrev measured : ColumnWidths
measured = record { date = 90; sha = 60; author = 120 }

abbrev two_lanes : LaneCap
two_lanes = record { shown = 2; overflow = false; hidden = 0 }

column_layout_lem_example :
    let l = column_layout 1000 two_lanes measured 8 16 12 in
    (min_description_width ≤ l.description_w + 12 / 2)
    × (pos (l.description_x + l.description_w + 12) ≡ l.author_x)
    × (l.author_x +ℤ pos (column_room l.author_w 12) ≡ l.sha_x)
    × (l.sha_x +ℤ pos (column_room l.sha_w 12) ≡ l.date_x)
    × (l.date_x ≡ pos (1000 - 12 / 2 - l.date_w))
unfolding column_layout graph_column_width
column_layout_lem_example =
    column_layout_lem 1000 two_lanes measured 8 16 12 (omega arith) (omega arith)

-- Runs of the small operations.
context_menu_from_pointer_run :
    context_menu_from_pointer 0 10 10 1500 (some (record { x = 8; y = 12; time = 600 })) ≡ true
unfolding context_menu_from_pointer
context_menu_from_pointer_run = refl

find_count_label_run : find_count_label (codes "q") (some 3) 2 true ≡ codes "2 of 3+"
unfolding find_count_label decimal
find_count_label_run = refl

filter_label_run : filter_label none [] ≡ codes "All Branches"
unfolding filter_label
filter_label_run = refl

restore_step_run : restore_step (some (codes "t")) 40 10 false true 3 ≡ load 40
unfolding restore_step
restore_step_run = refl

edge_color_lane_run : edge_color_lane (record { from_lane = 2; to_lane = 1; kind = line }) ≡ 2
unfolding edge_color_lane
edge_color_lane_run = refl

lane_color_run : lane_color 4 shas ≡ some (codes "bb")
unfolding lane_color
lane_color_run = refl
