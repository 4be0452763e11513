-- ===== src/Markdown/Tests.antt =====
-- Runs of the preview on small texts.
use elektrine.Base.{◌≡◌, refl, [], ◌∷◌, ◌++◌, map, is_space, some, true}
use elektrine.Markdown.Text.{codes, lower}
use elektrine.Markdown.Anchors.{IsLinked}
use elektrine.Markdown.Href.{is_safe_scheme, sanitize_markdown_href}
use elektrine.Markdown.Schemes.{browser_scheme, sanitize_markdown_href-Safe}
use elektrine.Markdown.Tagged.{is_tagged}
use elektrine.Markdown.Inline.{link_attributes, process_markdown_inline}
use elektrine.Markdown.Safety.{preview_tags}
use elektrine.Markdown.Wrap.{markdown_to_html}
use elektrine.Markdown.Wrap.Tagged.{markdown_to_html-IsTagged}
use elektrine.Markdown.Lines.{markdown_lines}

markdown_lines_headings :
    markdown_lines (codes "# a<b\n1. x *y* **z**\n\n[a](http://b) [c](data:d)")
    ≡ codes "<h1>a&lt;b</h1>"
      ∷ codes "<li>x <em>y</em> <strong>z</strong></li>"
      ∷ codes "<br>"
      ∷ codes
          "<p><a href=\"http://b\" class=\"text-primary underline\" target=\"_blank\" rel=\"noopener noreferrer\">a</a> [c](data:d)</p>"
      ∷ []
unfolding sanitize_markdown_href
markdown_lines_headings = refl

markdown_lines_code :
    markdown_lines (codes "```js\n*a*\n'\n```\nx`y`\n```\nz")
    ≡ codes "<pre><code>*a*\n&#39;</code></pre>"
      ∷ codes "<p>x<code>y</code></p>"
      ∷ codes "<pre><code>z</code></pre>"
      ∷ []
unfolding sanitize_markdown_href
markdown_lines_code = refl

-- A path that browsers read as `//evil.example` is kept.
backslash_path_test :
    sanitize_markdown_href (codes "/\\evil.example") ≡ some (codes "/\\evil.example")
unfolding sanitize_markdown_href
backslash_path_test = refl

-- The stars of a target become tags.
starred_target_test :
    markdown_lines (codes "[a](http://b/*c*)")
    ≡ (codes "<p><a href=\"http://b/<em>c</em>" ++ link_attributes ++ codes "a</a></p>") ∷ []
unfolding sanitize_markdown_href
starred_target_test = refl

-- A browser reads `java<tab>script` as one scheme.
browser_scheme_test : browser_scheme (codes "java\tscript:x") ≡ some (codes "javascript")
unfolding is_space
browser_scheme_test = refl

sanitize_markdown_href-Safe_example : is_safe_scheme (map lower (codes "HTTPS")) ≡ true
unfolding sanitize_markdown_href
sanitize_markdown_href-Safe_example =
    sanitize_markdown_href-Safe (codes " HTTPS://a.b ") (codes "HTTPS://a.b") (codes "HTTPS") refl
      refl

markdown_to_html-IsTagged_example :
    (is_tagged preview_tags (markdown_to_html (codes "- <img> [a](http://b)\n\"<\"")) ≡ true)
    × IsLinked (process_markdown_inline (codes "\"x\" [a](http://b) [c](javascript:d)"))
markdown_to_html-IsTagged_example =
    markdown_to_html-IsTagged (codes "- <img> [a](http://b)\n\"<\"")
      (codes "\"x\" [a](http://b) [c](javascript:d)")
