-- ===== src/Core/Tokens/Display.antt =====
-- The vocabularies of crates/schema-forge-core/src/types/field_annotation.rs: widgets, formats, colours
-- and list hints with their DSL tokens. A failed `from_str` is `none`: the error value holds the text
-- and the constant list of tokens.
use schemaforge.Prelude.{String, List, [], ◌∷◌, Option}
use schemaforge.Core.Tokens.Match.{find_arm}

pub data WidgetType : Type 0 where
  status_badge count_badge progress markdown rich_text color file image avatar slider : WidgetType
  rating code phone tags email url json : WidgetType

-- Every variant in declaration order.
abbrev pub all_widget : List WidgetType
all_widget =
    WidgetType.status_badge ∷ WidgetType.count_badge ∷ WidgetType.progress ∷ WidgetType.markdown
    ∷ WidgetType.rich_text ∷ WidgetType.color ∷ WidgetType.file ∷ WidgetType.image
    ∷ WidgetType.avatar ∷ WidgetType.slider ∷ WidgetType.rating ∷ WidgetType.code ∷ WidgetType.phone
    ∷ WidgetType.tags ∷ WidgetType.email ∷ WidgetType.url ∷ WidgetType.json ∷ []

abbrev pub widget_as_str : WidgetType → String
widget_as_str WidgetType.status_badge = "status_badge"
widget_as_str WidgetType.count_badge = "count_badge"
widget_as_str WidgetType.progress = "progress"
widget_as_str WidgetType.markdown = "markdown"
widget_as_str WidgetType.rich_text = "rich_text"
widget_as_str WidgetType.color = "color"
widget_as_str WidgetType.file = "file"
widget_as_str WidgetType.image = "image"
widget_as_str WidgetType.avatar = "avatar"
widget_as_str WidgetType.slider = "slider"
widget_as_str WidgetType.rating = "rating"
widget_as_str WidgetType.code = "code"
widget_as_str WidgetType.phone = "phone"
widget_as_str WidgetType.tags = "tags"
widget_as_str WidgetType.email = "email"
widget_as_str WidgetType.url = "url"
widget_as_str WidgetType.json = "json"

abbrev pub widget_arms : List (String × WidgetType)
widget_arms =
    ("status_badge", WidgetType.status_badge)
    ∷ ("count_badge", WidgetType.count_badge)
    ∷ ("progress", WidgetType.progress)
    ∷ ("markdown", WidgetType.markdown)
    ∷ ("rich_text", WidgetType.rich_text)
    ∷ ("color", WidgetType.color)
    ∷ ("file", WidgetType.file)
    ∷ ("image", WidgetType.image)
    ∷ ("avatar", WidgetType.avatar)
    ∷ ("slider", WidgetType.slider)
    ∷ ("rating", WidgetType.rating)
    ∷ ("code", WidgetType.code)
    ∷ ("phone", WidgetType.phone)
    ∷ ("tags", WidgetType.tags)
    ∷ ("email", WidgetType.email)
    ∷ ("url", WidgetType.url)
    ∷ ("json", WidgetType.json)
    ∷ []

unfoldable pub widget_from_str : String → Option WidgetType
unfolding find_arm
widget_from_str s = find_arm s widget_arms

pub data FormatType : Type 0 where
  currency percent date datetime relative bytes duration : FormatType

-- Every variant in declaration order.
abbrev pub all_format : List FormatType
all_format =
    FormatType.currency ∷ FormatType.percent ∷ FormatType.date ∷ FormatType.datetime
    ∷ FormatType.relative ∷ FormatType.bytes ∷ FormatType.duration ∷ []

abbrev pub format_as_str : FormatType → String
format_as_str FormatType.currency = "currency"
format_as_str FormatType.percent = "percent"
format_as_str FormatType.date = "date"
format_as_str FormatType.datetime = "datetime"
format_as_str FormatType.relative = "relative"
format_as_str FormatType.bytes = "bytes"
format_as_str FormatType.duration = "duration"

abbrev pub format_arms : List (String × FormatType)
format_arms =
    ("currency", FormatType.currency)
    ∷ ("percent", FormatType.percent)
    ∷ ("date", FormatType.date)
    ∷ ("datetime", FormatType.datetime)
    ∷ ("relative", FormatType.relative)
    ∷ ("bytes", FormatType.bytes)
    ∷ ("duration", FormatType.duration)
    ∷ []

unfoldable pub format_from_str : String → Option FormatType
unfolding find_arm
format_from_str s = find_arm s format_arms

pub data EnumColor : Type 0 where
  neutral gray red amber green blue purple violet teal rose : EnumColor

-- Every variant in declaration order.
abbrev pub all_color : List EnumColor
all_color =
    EnumColor.neutral ∷ EnumColor.gray ∷ EnumColor.red ∷ EnumColor.amber ∷ EnumColor.green
    ∷ EnumColor.blue ∷ EnumColor.purple ∷ EnumColor.violet ∷ EnumColor.teal ∷ EnumColor.rose ∷ []

abbrev pub color_as_str : EnumColor → String
color_as_str EnumColor.neutral = "neutral"
color_as_str EnumColor.gray = "gray"
color_as_str EnumColor.red = "red"
color_as_str EnumColor.amber = "amber"
color_as_str EnumColor.green = "green"
color_as_str EnumColor.blue = "blue"
color_as_str EnumColor.purple = "purple"
color_as_str EnumColor.violet = "violet"
color_as_str EnumColor.teal = "teal"
color_as_str EnumColor.rose = "rose"

abbrev pub color_arms : List (String × EnumColor)
color_arms =
    ("neutral", EnumColor.neutral)
    ∷ ("gray", EnumColor.gray)
    ∷ ("red", EnumColor.red)
    ∷ ("amber", EnumColor.amber)
    ∷ ("green", EnumColor.green)
    ∷ ("blue", EnumColor.blue)
    ∷ ("purple", EnumColor.purple)
    ∷ ("violet", EnumColor.violet)
    ∷ ("teal", EnumColor.teal)
    ∷ ("rose", EnumColor.rose)
    ∷ []

unfoldable pub color_from_str : String → Option EnumColor
unfolding find_arm
color_from_str s = find_arm s color_arms

pub data ListHint : Type 0 where
  primary column hidden : ListHint

-- Every variant in declaration order.
abbrev pub all_list_hint : List ListHint
all_list_hint = ListHint.primary ∷ ListHint.column ∷ ListHint.hidden ∷ []

abbrev pub list_hint_as_str : ListHint → String
list_hint_as_str ListHint.primary = "primary"
list_hint_as_str ListHint.column = "column"
list_hint_as_str ListHint.hidden = "hidden"

abbrev pub list_hint_arms : List (String × ListHint)
list_hint_arms =
    ("primary", ListHint.primary) ∷ ("column", ListHint.column) ∷ ("hidden", ListHint.hidden) ∷ []

unfoldable pub list_hint_from_str : String → Option ListHint
unfolding find_arm
list_hint_from_str s = find_arm s list_hint_arms
