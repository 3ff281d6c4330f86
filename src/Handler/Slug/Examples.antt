-- ===== src/Handler/Slug/Examples.antt =====
-- The slug of a title, at the limit that the envelope uses.
use omashiki.Common.{◌≤◌, max, length}
use omashiki.Common.Text.{Text, txt}
use omashiki.Handler.Slug.{slug}
use omashiki.Handler.Slug.Laws.{IsSlug, slug-IsSlug}

abbrev same : Text → Text
same t = t

abbrev title : Text
title = txt "--fix the login page"

slug-IsSlug_example : IsSlug (slug same title 40) × (length (slug same title 40) ≤ max 40 5)
slug-IsSlug_example = slug-IsSlug same title 40
