-- ===== src/Comments/Template/Texts.antt =====
-- The templates of doc/build/html/_static/websupport.js. A text that goes on behind a backslash keeps
-- the spaces at the head of the next line.
use pyfix.Base.{◌++◌, Text, codes}

abbrev pub popup_template : Text
popup_template =
    codes "    <div class=\"sphinx-comments\" id=\"sc<%id%>\">"
    ++ codes "      <p class=\"sort-options\">"
    ++ codes "        Sort by:"
    ++ codes "        <a href=\"#\" class=\"sort-option byrating\">best rated</a>"
    ++ codes "        <a href=\"#\" class=\"sort-option byascage\">newest</a>"
    ++ codes "        <a href=\"#\" class=\"sort-option byage\">oldest</a>"
    ++ codes "      </p>"
    ++ codes "      <div class=\"comment-header\">Comments</div>"
    ++ codes "      <div class=\"comment-loading\" id=\"cn<%id%>\">"
    ++ codes "        loading comments... <img src=\"<%loadingImage%>\" alt=\"\" /></div>"
    ++ codes "      <ul id=\"cl<%id%>\" class=\"comment-ul\"></ul>"
    ++ codes "      <div id=\"ca<%id%>\">"
    ++ codes "      <p class=\"add-a-comment\">Add a comment"
    ++ codes "        (<a href=\"#\" class=\"comment-markup\" id=\"ab<%id%>\">markup</a>):</p>"
    ++ codes "      <div class=\"comment-markup-box\" id=\"mb<%id%>\">"
    ++ codes "        reStructured text markup: <i>*emph*</i>, <b>**strong**</b>, "
    ++ codes "        <code>``code``</code>, "
    ++ codes "        code blocks: <code>::</code> and an indented block after blank line</div>"
    ++ codes "      <form method=\"post\" id=\"cf<%id%>\" class=\"comment-form\" action=\"\">"
    ++ codes "        <textarea name=\"comment\" cols=\"80\"></textarea>"
    ++ codes "        <p class=\"propose-button\">"
    ++ codes "          <a href=\"#\" id=\"pc<%id%>\" class=\"show-propose-change\">"
    ++ codes "            Propose a change &#9657;"
    ++ codes "          </a>"
    ++ codes "          <a href=\"#\" id=\"hc<%id%>\" class=\"hide-propose-change\">"
    ++ codes "            Propose a change &#9663;"
    ++ codes "          </a>"
    ++ codes "        </p>"
    ++ codes "        <textarea name=\"proposal\" id=\"pt<%id%>\" cols=\"80\""
    ++ codes "                  spellcheck=\"false\"></textarea>"
    ++ codes "        <input type=\"submit\" value=\"Add comment\" />"
    ++ codes "        <input type=\"hidden\" name=\"node\" value=\"<%id%>\" />"
    ++ codes "        <input type=\"hidden\" name=\"parent\" value=\"\" />"
    ++ codes "      </form>"
    ++ codes "      </div>"
    ++ codes "    </div>"

abbrev pub comment_template : Text
comment_template =
    codes "    <div id=\"cd<%id%>\" class=\"sphinx-comment<%css_class%>\">"
    ++ codes "      <div class=\"vote\">"
    ++ codes "        <div class=\"arrow\">"
    ++ codes "          <a href=\"#\" id=\"uv<%id%>\" class=\"vote\" title=\"vote up\">"
    ++ codes "            <img src=\"<%upArrow%>\" />"
    ++ codes "          </a>"
    ++ codes "          <a href=\"#\" id=\"uu<%id%>\" class=\"un vote\" title=\"vote up\">"
    ++ codes "            <img src=\"<%upArrowPressed%>\" />"
    ++ codes "          </a>"
    ++ codes "        </div>"
    ++ codes "        <div class=\"arrow\">"
    ++ codes "          <a href=\"#\" id=\"dv<%id%>\" class=\"vote\" title=\"vote down\">"
    ++ codes "            <img src=\"<%downArrow%>\" id=\"da<%id%>\" />"
    ++ codes "          </a>"
    ++ codes "          <a href=\"#\" id=\"du<%id%>\" class=\"un vote\" title=\"vote down\">"
    ++ codes "            <img src=\"<%downArrowPressed%>\" />"
    ++ codes "          </a>"
    ++ codes "        </div>"
    ++ codes "      </div>"
    ++ codes "      <div class=\"comment-content\">"
    ++ codes "        <p class=\"tagline comment\">"
    ++ codes "          <span class=\"user-id\"><%username%></span>"
    ++ codes "          <span class=\"rating\"><%pretty_rating%></span>"
    ++ codes "          <span class=\"delta\"><%time.delta%></span>"
    ++ codes "        </p>"
    ++ codes "        <div class=\"comment-text comment\"><#text#></div>"
    ++ codes "        <p class=\"comment-opts comment\">"
    ++ codes "          <a href=\"#\" class=\"reply hidden\" id=\"rl<%id%>\">reply &#9657;</a>"
    ++ codes "          <a href=\"#\" class=\"close-reply\" id=\"cr<%id%>\">reply &#9663;</a>"
    ++ codes "          <a href=\"#\" id=\"sp<%id%>\" class=\"show-proposal\">proposal &#9657;</a>"
    ++ codes "          <a href=\"#\" id=\"hp<%id%>\" class=\"hide-proposal\">proposal &#9663;</a>"
    ++ codes "          <a href=\"#\" id=\"dc<%id%>\" class=\"delete-comment hidden\">delete</a>"
    ++ codes "          <span id=\"cm<%id%>\" class=\"moderation hidden\">"
    ++ codes "            <a href=\"#\" id=\"ac<%id%>\" class=\"accept-comment\">accept</a>"
    ++ codes "          </span>"
    ++ codes "        </p>"
    ++ codes "        <pre class=\"proposal\" id=\"pr<%id%>\">"
    ++ codes "<#proposal_diff#>"
    ++ codes "        </pre>"
    ++ codes "          <ul class=\"comment-children\" id=\"cl<%id%>\"></ul>"
    ++ codes "        </div>"
    ++ codes "        <div class=\"clearleft\"></div>"
    ++ codes "      </div>"
    ++ codes "    </div>"

abbrev pub reply_template : Text
reply_template =
    codes "    <li>"
    ++ codes "      <div class=\"reply-div\" id=\"rd<%id%>\">"
    ++ codes "        <form id=\"rf<%id%>\">"
    ++ codes "          <textarea name=\"comment\" cols=\"80\"></textarea>"
    ++ codes "          <input type=\"submit\" value=\"Add reply\" />"
    ++ codes "          <input type=\"button\" value=\"Cancel\" />"
    ++ codes "          <input type=\"hidden\" name=\"parent\" value=\"<%id%>\" />"
    ++ codes "          <input type=\"hidden\" name=\"node\" value=\"\" />"
    ++ codes "        </form>"
    ++ codes "      </div>"
    ++ codes "    </li>"
