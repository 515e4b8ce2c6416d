-- ===== src/Modules/Exports.antt =====
-- The functions that modules can search for: `module_system_init` and `module_search_function`.
use osext.Common.{ℕ, ◌+◌, List, [], ◌∷◌, Option, none, some, get_or, if◌then◌else◌}
use osext.Libk.Strings.{k_streq}

-- The string of a list of characters.
unfoldable pub string : List ℕ → ℕ → ℕ
string cs i = get_or cs i 0

-- `modules_export_names`. A function is given by its index in `modules_export`.
abbrev pub modules_export_names : List (List ℕ)
modules_export_names =
    (107 ∷ 109 ∷ 97 ∷ 108 ∷ 108 ∷ 111 ∷ 99 ∷ [])
    ∷ (107 ∷ 102 ∷ 114 ∷ 101 ∷ 101 ∷ [])
    ∷ (117 ∷ 97 ∷ 114 ∷ 116 ∷ 95 ∷ 112 ∷ 114 ∷ 105 ∷ 110 ∷ 116 ∷ 102 ∷ [])
    ∷ (117 ∷ 115 ∷ 101 ∷ 67 ∷ 111 ∷ 110 ∷ 115 ∷ 101 ∷ 99 ∷ 117 ∷ 116 ∷ 105 ∷ 118 ∷ 101 ∷ 80 ∷ 97
        ∷ 103 ∷ 101 ∷ 115 ∷ [])
    ∷ (102 ∷ 114 ∷ 101 ∷ 101 ∷ 67 ∷ 111 ∷ 110 ∷ 115 ∷ 101 ∷ 99 ∷ 117 ∷ 116 ∷ 105 ∷ 118 ∷ 101 ∷ 80
        ∷ 97 ∷ 103 ∷ 101 ∷ 115 ∷ [])
    ∷ (114 ∷ 101 ∷ 103 ∷ 105 ∷ 115 ∷ 116 ∷ 101 ∷ 114 ∷ 95 ∷ 100 ∷ 114 ∷ 97 ∷ 119 ∷ 95 ∷ 102 ∷ 117
        ∷ 110 ∷ 99 ∷ 116 ∷ 105 ∷ 111 ∷ 110 ∷ [])
    ∷ (117 ∷ 110 ∷ 114 ∷ 101 ∷ 103 ∷ 105 ∷ 115 ∷ 116 ∷ 101 ∷ 114 ∷ 95 ∷ 100 ∷ 114 ∷ 97 ∷ 119 ∷ 95
        ∷ 102 ∷ 117 ∷ 110 ∷ 99 ∷ 116 ∷ 105 ∷ 111 ∷ 110 ∷ [])
    ∷ (114 ∷ 101 ∷ 103 ∷ 105 ∷ 115 ∷ 116 ∷ 101 ∷ 114 ∷ 95 ∷ 102 ∷ 105 ∷ 108 ∷ 101 ∷ 95 ∷ 102 ∷ 117
        ∷ 110 ∷ 99 ∷ 116 ∷ 105 ∷ 111 ∷ 110 ∷ [])
    ∷ (117 ∷ 110 ∷ 114 ∷ 101 ∷ 103 ∷ 105 ∷ 115 ∷ 116 ∷ 101 ∷ 114 ∷ 95 ∷ 102 ∷ 105 ∷ 108 ∷ 101 ∷ 95
        ∷ 102 ∷ 117 ∷ 110 ∷ 99 ∷ 116 ∷ 105 ∷ 111 ∷ 110 ∷ [])
    ∷ (102 ∷ 114 ∷ 97 ∷ 109 ∷ 101 ∷ 98 ∷ 117 ∷ 102 ∷ 102 ∷ 101 ∷ 114 ∷ 95 ∷ 115 ∷ 101 ∷ 116 ∷ 112
        ∷ 105 ∷ 120 ∷ 101 ∷ 108 ∷ 53 ∷ 54 ∷ 53 ∷ [])
    ∷ (102 ∷ 114 ∷ 97 ∷ 109 ∷ 101 ∷ 98 ∷ 117 ∷ 102 ∷ 102 ∷ 101 ∷ 114 ∷ 95 ∷ 100 ∷ 114 ∷ 97 ∷ 119
        ∷ 95 ∷ 105 ∷ 109 ∷ 103 ∷ 53 ∷ 54 ∷ 53 ∷ [])
    ∷ (102 ∷ 114 ∷ 97 ∷ 109 ∷ 101 ∷ 98 ∷ 117 ∷ 102 ∷ 102 ∷ 101 ∷ 114 ∷ 95 ∷ 115 ∷ 101 ∷ 116 ∷ 112
        ∷ 105 ∷ 120 ∷ 101 ∷ 108 ∷ [])
    ∷ (102 ∷ 114 ∷ 97 ∷ 109 ∷ 101 ∷ 98 ∷ 117 ∷ 102 ∷ 102 ∷ 101 ∷ 114 ∷ 95 ∷ 102 ∷ 105 ∷ 108 ∷ 108
        ∷ 114 ∷ 101 ∷ 99 ∷ 116 ∷ [])
    ∷ (102 ∷ 114 ∷ 97 ∷ 109 ∷ 101 ∷ 98 ∷ 117 ∷ 102 ∷ 102 ∷ 101 ∷ 114 ∷ 95 ∷ 100 ∷ 114 ∷ 97 ∷ 119
        ∷ 114 ∷ 101 ∷ 99 ∷ 116 ∷ [])
    ∷ (102 ∷ 114 ∷ 97 ∷ 109 ∷ 101 ∷ 98 ∷ 117 ∷ 102 ∷ 102 ∷ 101 ∷ 114 ∷ 95 ∷ 119 ∷ 114 ∷ 105 ∷ 116
        ∷ 101 ∷ 49 ∷ 48 ∷ 112 ∷ 99 ∷ 104 ∷ 97 ∷ 114 ∷ [])
    ∷ (102 ∷ 114 ∷ 97 ∷ 109 ∷ 101 ∷ 98 ∷ 117 ∷ 102 ∷ 102 ∷ 101 ∷ 114 ∷ 95 ∷ 119 ∷ 114 ∷ 105 ∷ 116
        ∷ 101 ∷ 49 ∷ 48 ∷ 112 ∷ 100 ∷ 105 ∷ 103 ∷ 105 ∷ 116 ∷ [])
    ∷ (102 ∷ 114 ∷ 97 ∷ 109 ∷ 101 ∷ 98 ∷ 117 ∷ 102 ∷ 102 ∷ 101 ∷ 114 ∷ 95 ∷ 119 ∷ 114 ∷ 105 ∷ 116
        ∷ 101 ∷ 49 ∷ 48 ∷ 112 ∷ 115 ∷ 116 ∷ 114 ∷ 105 ∷ 110 ∷ 103 ∷ 95 ∷ 97 ∷ 115 ∷ 99 ∷ 105 ∷ 105
        ∷ [])
    ∷ (112 ∷ 97 ∷ 110 ∷ 105 ∷ 99 ∷ [])
    ∷ (115 ∷ 121 ∷ 115 ∷ 116 ∷ 105 ∷ 109 ∷ 101 ∷ 95 ∷ 117 ∷ 110 ∷ 105 ∷ 120 ∷ [])
    ∷ (115 ∷ 121 ∷ 115 ∷ 116 ∷ 105 ∷ 109 ∷ 101 ∷ 95 ∷ 117 ∷ 110 ∷ 105 ∷ 120 ∷ 95 ∷ 109 ∷ 105 ∷ 108
        ∷ 108 ∷ 105 ∷ [])
    ∷ (115 ∷ 121 ∷ 115 ∷ 116 ∷ 105 ∷ 109 ∷ 101 ∷ 95 ∷ 116 ∷ 105 ∷ 109 ∷ 101 ∷ 115 ∷ 116 ∷ 97 ∷ 109
        ∷ 112 ∷ 95 ∷ 116 ∷ 111 ∷ 95 ∷ 117 ∷ 110 ∷ 105 ∷ 120 ∷ [])
    ∷ (115 ∷ 121 ∷ 115 ∷ 116 ∷ 105 ∷ 109 ∷ 101 ∷ 95 ∷ 117 ∷ 110 ∷ 105 ∷ 120 ∷ 95 ∷ 116 ∷ 111 ∷ 95
        ∷ 116 ∷ 105 ∷ 109 ∷ 101 ∷ 115 ∷ 116 ∷ 97 ∷ 109 ∷ 112 ∷ [])
    ∷ (100 ∷ 101 ∷ 98 ∷ 117 ∷ 103 ∷ 95 ∷ 115 ∷ 104 ∷ 101 ∷ 108 ∷ 108 ∷ 95 ∷ 112 ∷ 114 ∷ 105 ∷ 110
        ∷ 116 ∷ 108 ∷ 110 ∷ [])
    ∷ (100 ∷ 101 ∷ 98 ∷ 117 ∷ 103 ∷ 95 ∷ 115 ∷ 104 ∷ 101 ∷ 108 ∷ 108 ∷ 95 ∷ 112 ∷ 114 ∷ 105 ∷ 110
        ∷ 116 ∷ 108 ∷ 110 ∷ 95 ∷ 114 ∷ 103 ∷ 98 ∷ [])
    ∷ (105 ∷ 115 ∷ 75 ∷ 101 ∷ 121 ∷ 80 ∷ 114 ∷ 101 ∷ 115 ∷ 115 ∷ 101 ∷ 100 ∷ [])
    ∷ (107 ∷ 101 ∷ 121 ∷ 112 ∷ 97 ∷ 100 ∷ 95 ∷ 112 ∷ 114 ∷ 101 ∷ 115 ∷ 115 ∷ 95 ∷ 114 ∷ 101 ∷ 108
        ∷ 101 ∷ 97 ∷ 115 ∷ 101 ∷ 95 ∷ 98 ∷ 97 ∷ 114 ∷ 114 ∷ 105 ∷ 101 ∷ 114 ∷ [])
    ∷ (116 ∷ 111 ∷ 117 ∷ 99 ∷ 104 ∷ 112 ∷ 97 ∷ 100 ∷ 95 ∷ 103 ∷ 101 ∷ 116 ∷ 95 ∷ 114 ∷ 101 ∷ 112
        ∷ 111 ∷ 114 ∷ 116 ∷ [])
    ∷ (116 ∷ 111 ∷ 117 ∷ 99 ∷ 104 ∷ 112 ∷ 97 ∷ 100 ∷ 95 ∷ 105 ∷ 115 ∷ 95 ∷ 97 ∷ 114 ∷ 114 ∷ 111
        ∷ 119 ∷ [])
    ∷ (103 ∷ 101 ∷ 116 ∷ 95 ∷ 98 ∷ 97 ∷ 99 ∷ 107 ∷ 95 ∷ 102 ∷ 114 ∷ 97 ∷ 109 ∷ 101 ∷ 98 ∷ 117 ∷ 102
        ∷ 102 ∷ 101 ∷ 114 ∷ 95 ∷ 97 ∷ 100 ∷ 100 ∷ 114 ∷ 101 ∷ 115 ∷ 115 ∷ [])
    ∷ (98 ∷ 108 ∷ 105 ∷ 116 ∷ 76 ∷ 67 ∷ 68 ∷ 66 ∷ 117 ∷ 102 ∷ 102 ∷ 101 ∷ 114 ∷ [])
    ∷ (107 ∷ 95 ∷ 109 ∷ 101 ∷ 109 ∷ 115 ∷ 101 ∷ 116 ∷ [])
    ∷ (107 ∷ 95 ∷ 109 ∷ 101 ∷ 109 ∷ 99 ∷ 112 ∷ 121 ∷ [])
    ∷ (107 ∷ 95 ∷ 115 ∷ 116 ∷ 114 ∷ 108 ∷ 101 ∷ 110 ∷ [])
    ∷ (107 ∷ 95 ∷ 115 ∷ 116 ∷ 114 ∷ 99 ∷ 109 ∷ 112 ∷ [])
    ∷ (115 ∷ 112 ∷ 114 ∷ 105 ∷ 110 ∷ 116 ∷ 102 ∷ 95 ∷ 115 ∷ 97 ∷ 102 ∷ 101 ∷ [])
    ∷ (109 ∷ 115 ∷ 108 ∷ 101 ∷ 101 ∷ 112 ∷ [])
    ∷ (115 ∷ 121 ∷ 115 ∷ 116 ∷ 105 ∷ 109 ∷ 101 ∷ 95 ∷ 115 ∷ 101 ∷ 116 ∷ 95 ∷ 117 ∷ 110 ∷ 105 ∷ 120
        ∷ [])
    ∷ (114 ∷ 103 ∷ 98 ∷ 116 ∷ 111 ∷ 53 ∷ 54 ∷ 53 ∷ [])
    ∷ (115 ∷ 105 ∷ 103 ∷ 110 ∷ 101 ∷ 100 ∷ 116 ∷ 111 ∷ 117 ∷ 110 ∷ 115 ∷ 105 ∷ 103 ∷ 110 ∷ 101 ∷ 100
        ∷ 51 ∷ 50 ∷ [])
    ∷ (114 ∷ 116 ∷ 99 ∷ 95 ∷ 103 ∷ 101 ∷ 116 ∷ 95 ∷ 118 ∷ 97 ∷ 108 ∷ 117 ∷ 101 ∷ [])
    ∷ (110 ∷ 117 ∷ 99 ∷ 95 ∷ 102 ∷ 111 ∷ 112 ∷ 101 ∷ 110 ∷ [])
    ∷ (110 ∷ 117 ∷ 99 ∷ 95 ∷ 102 ∷ 99 ∷ 108 ∷ 111 ∷ 115 ∷ 101 ∷ [])
    ∷ (110 ∷ 117 ∷ 99 ∷ 95 ∷ 102 ∷ 114 ∷ 101 ∷ 97 ∷ 100 ∷ [])
    ∷ (110 ∷ 117 ∷ 99 ∷ 95 ∷ 102 ∷ 119 ∷ 114 ∷ 105 ∷ 116 ∷ 101 ∷ [])
    ∷ (97 ∷ 100 ∷ 99 ∷ 95 ∷ 114 ∷ 101 ∷ 97 ∷ 100 ∷ 95 ∷ 99 ∷ 104 ∷ 97 ∷ 110 ∷ 110 ∷ 101 ∷ 108 ∷ [])
    ∷ []

-- The names from index `i` on are left. `none` is `NULL`.
unfoldable pub search_names : (name : ℕ → ℕ) → (i : ℕ) → List (List ℕ) → Option ℕ
search_names name i [] = none
search_names name i (n ∷ ns) =
    let rest = search_names name (i + 1) ns in if k_streq name (string n) 100 then some i else rest

unfoldable pub module_search_function : (name : ℕ → ℕ) → Option ℕ
module_search_function name = search_names name 0 modules_export_names
